-- ===== src/Js/Grammar/Sound/Rounds.antt =====
-- libs/js/grammar.c: the calls behind the primary expressions, given what their calls return.
use mathlib.Core.List.{append_assoc, append-nil}
use saki_os.Base.{
  ℕ, ◌≤◌, ◌<◌, ◌≡◌, refl, ap, sym, subst, ◌∙◌, Bool, List, [], ◌∷◌, ◌++◌, Option, none, some, ◌==◌,
  ==→eq, length, arith,
}
use saki_os.Base.Ensures.{Ensures, Ensures-bind}
use saki_os.Js.Grammar.Sound.Tables.{
  binary_type-operators, unary_type-operators, assign_type-assignments, previous-Tighter,
  operator-Tighter,
}
use saki_os.Js.Grammar.Derives.{
  under_unary, under_assign, under_postfix, under_cond, Derives, operator, prefix, lift,
  post_increment, post_decrement, conditional, assignment,
}
use saki_os.Js.Grammar.Expr.{
  Level, Call, start, left_hand_side_loop, binary_loop, previous, binary_type, unary_type,
  assign_type, binary_case, binary_round, grammar_binary, unary_case, grammar_unary_expr,
  assign_case, grammar_assign_expr, grammar_cond_expr, grammar_postfix_expr,
  grammar_left_hand_side_expr,
}
use saki_os.Js.Grammar.Tape.{
  Tape, tape, keep, view, IsValid, lookahead-Ensures, if-Ensures, next-Ensures, expect-Ensures,
  pushback-IsValid,
}
use saki_os.Js.Grammar.Sound.{
  first_token, pushed_back, Ensures-done, Meaning, rank, Reads, IsRead, need, Ensures-after,
  Ensures-pure, length-split, level_rank, level_rank_bound, binary_type-end, unary_type-end,
  assign_type-end,
}
use saki_os.Js.Grammar.{Parser, ◌>>=◌, pushback}
use saki_os.Js.Node.{Node, UnaryNodeType, BinaryNodeType}
use saki_os.Js.Token.{Token}
use saki_os.Js.TokenType

-- Calls with `fuel` or less do what they are meant to.
abbrev pub Reading :
    {D : Type 0} → Bool → (Call D → Parser (List (Token D)) D (Node D)) → ℕ → Type 0
Reading {D} no_in self fuel =
    (call : Call D) (gmr : Tape D)
    → IsValid no_in gmr
    → need call gmr < fuel
    → Ensures (IsRead no_in gmr call) (self call gmr)

module _ {D : Type 0} (no_in : Bool) (self : Call D → Parser (List (Token D)) D (Node D)) (fuel : ℕ)
    (reading : Reading no_in self fuel) where
  pub call-Ensures :
      {B : Type 0} {Q : B × Tape D → Type 0} (f : Node D → Parser (List (Token D)) D B)
      (call : Call D) (gmr : Tape D)
      → IsValid no_in gmr
      → need call gmr < fuel
      → ((n : Node D) (g : Tape D) → Reads no_in gmr call n g → Ensures Q (f n g))
      → Ensures Q ((self call >>= f) gmr)
  call-Ensures f call gmr v enough k = Ensures-bind (reading call gmr v enough) (λ r h. k r.0 r.1 h)

  module _ (gmr : Tape D) (v : IsValid no_in gmr) where
    pub left_hand_side-Ensures :
        need (start Level.left_hand_side) gmr ≤ fuel
        → Ensures
            (IsRead no_in gmr (start Level.left_hand_side))
            (grammar_left_hand_side_expr tape self gmr)
    unfolding grammar_left_hand_side_expr need rank Meaning level_rank
    left_hand_side-Ensures enough =
        call-Ensures _ (start Level.member) gmr v (omega arith) λ cur g r.
          let n = length-split r.taken gmr g r.split in
          Ensures-after no_in gmr g (start Level.left_hand_side) (left_hand_side_loop cur) r.taken
            r.split (λ us n m. m r.taken r.meaning)
            (reading (left_hand_side_loop cur) g r.valid (omega (arith, n)))

    pub binary-Ensures :
        (level : Level)
        → level_rank (previous level) < level_rank level
        → need (start level) gmr ≤ fuel
        → Ensures (IsRead no_in gmr (start level)) (grammar_binary tape self level gmr)
    unfolding grammar_binary need rank Meaning
    binary-Ensures level lower enough =
        call-Ensures _ (start (previous level)) gmr v (omega arith) λ cur g r.
          let n = length-split r.taken gmr g r.split in
          Ensures-after no_in gmr g (start level) (binary_loop level cur) r.taken r.split
            (λ us n m. m r.taken (lift (previous-Tighter level lower) r.meaning))
            (reading (binary_loop level cur) g r.valid (omega (arith, n, lower)))

    binary_case-Ensures :
        (level : Level) (cur : Node D) (t : Token D) (g : Tape D)
        → need (binary_loop level cur) gmr ≤ fuel
        → IsValid no_in g
        → view gmr ≡ keep t (view g)
        → (o : Option BinaryNodeType) → binary_type no_in level t.type ≡ o
        → Ensures
            (IsRead no_in gmr (binary_loop level cur))
            (binary_case tape self level cur o (pushback t g))
    unfolding binary_case need rank Meaning
    binary_case-Ensures level cur t g enough w first none e =
        Ensures-pure no_in gmr g (binary_loop level cur) cur t [] w first
          (λ ts d. subst (λ us. Derives no_in level us cur) (sym (append-nil ts)) d)
    binary_case-Ensures level cur t g enough w first (some type) e =
        let taken = first_token t gmr g (λ q. cc (e, q, binary_type-end no_in level)) first in
        let n = ap length taken in
        next-Ensures _ t g (
          call-Ensures _ (start (previous level)) g w
            (omega (arith, n, level_rank_bound (previous level)))
            λ right g' r.
              let n' = length-split r.taken g g' r.split in
              Ensures-after no_in gmr g' (binary_loop level cur)
                (binary_loop level (Node.binary type cur right)) (t ∷ r.taken)
                (taken ∙ ap (λ us. t ∷ us) r.split)
                (λ us n m ts d.
                  subst (λ us. Derives no_in level us n) (append_assoc ts (t ∷ r.taken) us)
                    (m (ts ++ t ∷ r.taken) (
                      operator t d (sym (binary_type-operators no_in level t.type) ∙ e)
                        (operator-Tighter no_in level t.type e) r.meaning)))
                (reading (binary_loop level (Node.binary type cur right)) g' r.valid
                  (omega (arith, n, n'))))

    pub binary_round-Ensures :
        (level : Level) (cur : Node D)
        → need (binary_loop level cur) gmr ≤ fuel
        → Ensures (IsRead no_in gmr (binary_loop level cur)) (binary_round tape self level cur gmr)
    unfolding binary_round pushback
    binary_round-Ensures level cur enough = lookahead-Ensures _ v λ t g w first.
        binary_case-Ensures level cur t g enough w first (binary_type g.no_in level t.type)
          (ap (λ b. binary_type b level t.type) (sym w.flag))

    unary_case-Ensures :
        (t : Token D) (g : Tape D)
        → need (start Level.unary) gmr ≤ fuel
        → IsValid no_in g
        → view gmr ≡ keep t (view g)
        → (o : Option UnaryNodeType) → unary_type t.type ≡ o
        → Ensures (IsRead no_in gmr (start Level.unary)) (unary_case tape self o (pushback t g))
    unfolding unary_case need rank level_rank Meaning
    unary_case-Ensures t g enough w first none e =
        let same = pushed_back t gmr g first in
        Ensures-after no_in gmr (pushback t g) (start Level.unary) (start Level.postfix) [] same
          (λ us n d. lift under_unary d)
          (reading (start Level.postfix) (pushback t g) (pushback-IsValid t w)
            (omega (arith, ap length same)))
    unary_case-Ensures t g enough w first (some type) e =
        let taken = first_token t gmr g (λ q. cc (e, q, unary_type-end)) first in
        let n = ap length taken in
        next-Ensures _ t g (
          call-Ensures _ (start Level.unary) g w (omega (arith, n)) λ operand g' r.
            Ensures-done no_in gmr g' (start Level.unary) (Node.unary type operand) (t ∷ r.taken)
              r.valid (taken ∙ ap (λ us. t ∷ us) r.split)
              (prefix t (sym (unary_type-operators t.type) ∙ e) r.meaning))

    pub unary-Ensures :
        need (start Level.unary) gmr ≤ fuel
        → Ensures (IsRead no_in gmr (start Level.unary)) (grammar_unary_expr tape self gmr)
    unfolding grammar_unary_expr
    unary-Ensures enough =
        lookahead-Ensures _ v
          λ t g w first. unary_case-Ensures t g enough w first (unary_type t.type) refl

    assign_case-Ensures :
        (node : Node D) (ts : List (Token D)) (mid : Tape D) (t : Token D) (g : Tape D)
        → need (start Level.assign) gmr ≤ fuel
        → view gmr ≡ ts ++ view mid
        → Derives no_in Level.cond ts node
        → IsValid no_in g
        → view mid ≡ keep t (view g)
        → (o : Option BinaryNodeType) → assign_type t.type ≡ o
        → Ensures
            (IsRead no_in gmr (start Level.assign))
            (assign_case tape self node o (pushback t g))
    unfolding assign_case need rank level_rank Meaning
    assign_case-Ensures node ts mid t g enough split d w first none e =
        Ensures-pure no_in gmr g (start Level.assign) node t ts w
          (split ∙ ap (λ us. ts ++ us) first) (lift under_assign d)
    assign_case-Ensures node ts mid t g enough split d w first (some type) e =
        let taken = first_token t mid g (λ q. cc (e, q, assign_type-end)) first in
        let n = ap length taken in
        let n' = length-split ts gmr mid split in
        next-Ensures _ t g (
          call-Ensures _ (start Level.assign) g w (omega (arith, n, n')) λ right g' r.
            Ensures-done no_in gmr g' (start Level.assign) (Node.binary type node right)
              (ts ++ t ∷ r.taken) r.valid
              (split
                ∙ ap (λ us. ts ++ us) (taken ∙ ap (λ us. t ∷ us) r.split)
                ∙ sym (append_assoc ts (t ∷ r.taken) (view g')))
              (assignment t d (sym (assign_type-assignments t.type) ∙ e) r.meaning))

    pub assign-Ensures :
        need (start Level.assign) gmr ≤ fuel
        → Ensures (IsRead no_in gmr (start Level.assign)) (grammar_assign_expr tape self gmr)
    unfolding grammar_assign_expr
    assign-Ensures enough =
        call-Ensures _ (start Level.cond) gmr v (unfold need rank level_rank in omega arith)
          λ node mid r. lookahead-Ensures _ r.valid λ t g w first.
            assign_case-Ensures node r.taken mid t g enough r.split (unfold Meaning in r.meaning) w
              first (assign_type t.type) refl

    pub postfix-Ensures :
        need (start Level.postfix) gmr ≤ fuel
        → Ensures (IsRead no_in gmr (start Level.postfix)) (grammar_postfix_expr tape self gmr)
    unfolding grammar_postfix_expr need rank level_rank Meaning
    postfix-Ensures enough =
        call-Ensures _ (start Level.left_hand_side) gmr v (omega arith) λ node mid r.
          lookahead-Ensures _ r.valid λ t g w first.
            let leave =
              Ensures-pure no_in gmr g (start Level.postfix) node t r.taken w
                (r.split ∙ ap (λ us. r.taken ++ us) first) (lift under_postfix r.meaning) in
            let join = λ (h : view mid ≡ t ∷ view g).
              r.split ∙ ap (λ us. r.taken ++ us) h ∙ sym (append_assoc r.taken (t ∷ []) (view g)) in
            if-Ensures t.line_before _ _ (λ _. leave)
              (λ same_line.
                if-Ensures (t.type == TokenType.inc) _ _
                  (λ e.
                    let is = ==→eq t.type TokenType.inc e in
                    next-Ensures _ t g (
                      Ensures-done no_in gmr g (start Level.postfix) _ (r.taken ++ t ∷ []) w
                        (join (first_token t mid g (λ q. omega (arith, is, q)) first))
                        (post_increment t r.meaning same_line is)))
                  (λ _.
                    if-Ensures (t.type == TokenType.dec) _ _
                      (λ e.
                        let is = ==→eq t.type TokenType.dec e in
                        next-Ensures _ t g (
                          Ensures-done no_in gmr g (start Level.postfix) _ (r.taken ++ t ∷ []) w
                            (join (first_token t mid g (λ q. omega (arith, is, q)) first))
                            (post_decrement t r.meaning same_line is)))
                      (λ _. leave)))

    pub cond-Ensures :
        need (start Level.cond) gmr ≤ fuel
        → Ensures (IsRead no_in gmr (start Level.cond)) (grammar_cond_expr tape self gmr)
    unfolding grammar_cond_expr need rank level_rank Meaning
    cond-Ensures enough = call-Ensures _ (start Level.l_or) gmr v (omega arith) λ node mid r.
        lookahead-Ensures _ r.valid λ t g w first.
          if-Ensures (t.type == b'?') _ _
            (λ e.
              let is = ==→eq t.type b'?' e in
              let taken = first_token t mid g (λ q. omega (arith, is, q)) first in
              let n = length-split r.taken gmr mid r.split in
              let n' = ap length taken in
              next-Ensures _ t g (
                call-Ensures _ (start Level.assign) g w (omega (arith, n, n')) λ then_node g₁ r₁.
                  expect-Ensures _ b':' r₁.valid λ u g₂ is' w₂ first'.
                    let taken' = first_token u g₁ g₂ (λ q. omega (arith, is', q)) first' in
                    let n₁ = length-split r₁.taken g g₁ r₁.split in
                    let n₂ = ap length taken' in
                    call-Ensures _ (start Level.assign) g₂ w₂ (omega (arith, n, n', n₁, n₂))
                      λ else_node g₃ r₃.
                        Ensures-done no_in gmr g₃ (start Level.cond) _
                          (r.taken ++ t ∷ (r₁.taken ++ u ∷ r₃.taken)) r₃.valid
                          (rw (r.split, taken, r₁.split, taken', r₃.split) (simp append_assoc))
                          (conditional t u r.meaning is r₁.meaning is' r₃.meaning)))
            (λ _.
              Ensures-pure no_in gmr g (start Level.cond) node t r.taken w
                (r.split ∙ ap (λ us. r.taken ++ us) first) (lift under_cond r.meaning))
