-- ===== src/Js/Grammar/Sound/Whole.antt =====
-- libs/js/grammar.c: the expression parser as a whole.
use saki_os.Base.{
  ℕ, zero, suc, ◌+◌, ◌*◌, ◌≤◌, ◌<◌, ◌≡◌, ◌≢◌, refl, Bool, true, List, ◌++◌, length, arith, ok,
  fault, out_of_fuel,
}
use saki_os.Base.Ensures.{Ensures, Ensures-ok, Ensures-halts}
use saki_os.Js.Grammar.Derives.{Derives, lift, under_left_hand_side}
use saki_os.Js.Grammar.Expr.{
  Level, Call, start, member_loop, left_hand_side_loop, binary_loop, run_call, parse, grammar_expr,
}
use saki_os.Js.Grammar.Tape.{Tape, tape, view, strip, IsValid}
use saki_os.Js.Grammar.Sound.{Meaning, rank, level_rank, IsRead, need}
use saki_os.Js.Grammar.Sound.Primary.{member-Ensures, round-Ensures, IsLoop}
use saki_os.Js.Grammar.Sound.Rounds.{
  Reading, left_hand_side-Ensures, binary-Ensures, binary_round-Ensures, unary-Ensures,
  assign-Ensures, cond-Ensures, postfix-Ensures,
}
use saki_os.Js.Grammar.{Parser, grammar_new}
use saki_os.Js.Node.{Node}
use saki_os.Js.Token.{Token}

module _ {D : Type 0} (no_in : Bool) where
  module _ (self : Call D → Parser (List (Token D)) D (Node D)) (fuel : ℕ)
      (reading : Reading no_in self fuel) where
    run_call-Ensures :
        (call : Call D) (gmr : Tape D)
        → IsValid no_in gmr
        → need call gmr ≤ fuel
        → Ensures (IsRead no_in gmr call) (run_call tape self call gmr)
    unfolding run_call
    run_call-Ensures (start Level.member) gmr v h = member-Ensures no_in self fuel reading gmr v h
    run_call-Ensures (start Level.left_hand_side) gmr v h =
        left_hand_side-Ensures no_in self fuel reading gmr v h
    run_call-Ensures (start Level.postfix) gmr v h = postfix-Ensures no_in self fuel reading gmr v h
    run_call-Ensures (start Level.unary) gmr v h = unary-Ensures no_in self fuel reading gmr v h
    run_call-Ensures (start Level.cond) gmr v h = cond-Ensures no_in self fuel reading gmr v h
    run_call-Ensures (start Level.assign) gmr v h = assign-Ensures no_in self fuel reading gmr v h
    run_call-Ensures (start level) gmr v h =
        binary-Ensures no_in self fuel reading gmr v level (unfold level_rank in omega arith) h
    run_call-Ensures (binary_loop level cur) gmr v h =
        binary_round-Ensures no_in self fuel reading gmr v level cur h
    run_call-Ensures (member_loop cur) gmr v h =
        round-Ensures no_in self fuel reading gmr v member_loop Level.member
          (unfold IsLoop rank Meaning in λ n. (refl, λ us m. (λ d. d, λ d. d))) (λ ts n d. d) cur
          (unfold need rank in omega (arith, h))
    run_call-Ensures (left_hand_side_loop cur) gmr v h =
        round-Ensures no_in self fuel reading gmr v left_hand_side_loop Level.left_hand_side
          (unfold IsLoop rank Meaning in λ n. (refl, λ us m. (λ d. d, λ d. d)))
          (λ ts n d. lift under_left_hand_side d) cur (unfold need rank in omega (arith, h))

  parse-Ensures : (fuel : ℕ) → Reading {D = D} no_in (parse tape fuel) fuel
  unfolding parse
  parse-Ensures zero call gmr v h = absurd (omega arith)
  parse-Ensures (suc fuel) call gmr v h =
      run_call-Ensures (parse tape fuel) fuel (parse-Ensures fuel) call gmr v (omega arith)

-- The expression parser of a new grammar over a list of tokens, with 18 units of fuel for each token
-- and 18 more: it keeps within its fuel, and if it returns a tree, the tokens that it took derive that
-- tree as an expression, and the others are left in front of it. END_OF_FILE is not counted.
pub grammar_expr-Derives :
    {D : Type 0} (ts : List (Token D)) (fuel : ℕ)
    → 18 * length (strip ts) + 17 < fuel
    → (grammar_expr tape fuel (grammar_new ts) ≢ fault out_of_fuel)
      × ((n : Node D) (gmr : Tape D)
          → grammar_expr tape fuel (grammar_new ts) ≡ ok (n, gmr)
          → (us : List (Token D)) × (strip ts ≡ us ++ view gmr) × Derives true Level.expr us n)
unfolding need rank level_rank view Meaning strip
grammar_expr-Derives ts fuel h =
    let e =
      parse-Ensures true fuel (start Level.expr) (grammar_new ts)
        (record { queue = refl; flag = refl }) (omega arith) in
    (Ensures-halts e, λ n gmr q. let r = Ensures-ok e q in (r.taken, r.split, r.meaning))
