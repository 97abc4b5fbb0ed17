-- ===== src/Js/Grammar/Sound/Primary.antt =====
-- libs/js/grammar.c: the primary and the member expressions, given what their calls return.
use mathlib.Core.List.{append_assoc, append-nil}
use saki_os.Base.{
  ℕ, ◌*◌, ◌≤◌, ◌≡◌, refl, ap, sym, subst, ◌∙◌, Bool, true, false, ◌||◌, List, [], ◌∷◌, ◌++◌, none,
  some, ◌==◌, ==→eq, length, arith, ok, ◌↔◌,
}
use saki_os.Base.Ensures.{Ensures, Ensures-bind, failed}
use saki_os.Js.Grammar.Derives.{Derives, literal, literal_node, parentheses, dot, index}
use saki_os.Js.Grammar.Expr.{
  Level, Call, start, member_loop, grammar_primary_expr, grammar_member_expr, member_round,
}
use saki_os.Js.Grammar.Tape.{
  Tape, tape, keep, view, IsValid, if-Ensures, lookahead-Ensures, next-Ensures, expect-Ensures,
  pushback-IsValid,
}
use saki_os.Js.Grammar.Sound.{
  Meaning, rank, level_rank, IsRead, need, Ensures-after, Ensures-done, Ensures-pure, length-split,
  first_token, pushed_back,
}
use saki_os.Js.Grammar.Sound.Rounds.{Reading, call-Ensures}
use saki_os.Js.Grammar.{Parser, pushback}
use saki_os.Js.Node.{Node, EmptyNodeType, BinaryNodeType, from_value}
use saki_os.Js.Token.{Token}
use saki_os.Js.TokenType

literal_node-end :
    {D : Type 0} (t : Token D) → t.type ≡ TokenType.end_of_file → literal_node t ≡ none
unfolding literal_node
literal_node-end t q = ground arith

module _ {D : Type 0} (no_in : Bool) (self : Call D → Parser (List (Token D)) D (Node D)) (fuel : ℕ)
    (reading : Reading no_in self fuel) (gmr : Tape D) (v : IsValid no_in gmr) where
  literal-Ensures :
      (t : Token D) (g : Tape D) (n : Node D)
      → IsValid no_in g
      → view gmr ≡ keep t (view g)
      → literal_node t ≡ some n
      → Ensures (IsRead no_in gmr (start Level.member)) (ok (n, g))
  unfolding Meaning
  literal-Ensures t g n w first e =
      Ensures-done no_in gmr g (start Level.member) n (t ∷ []) w
        (first_token t gmr g (λ q. cc (literal_node-end t q, e)) first) (literal e)

  primary-Ensures :
      18 * length (view gmr) ≤ fuel
      → Ensures (IsRead no_in gmr (start Level.member)) (grammar_primary_expr tape self gmr)
  unfolding grammar_primary_expr need rank level_rank Meaning
  primary-Ensures enough = lookahead-Ensures _ v λ t g w first.
      if-Ensures (t.type == TokenType.this) _ _
        (λ a. next-Ensures _ t g (
          literal-Ensures t g (Node.empty EmptyNodeType.this_node) w first
            (unfold literal_node in ground (arith, a))))
        λ a.
          if-Ensures (t.type == TokenType.null_lit) _ _
            (λ b.
              next-Ensures _ t g (
                literal-Ensures t g Node.null w first
                  (unfold literal_node in ground (arith, a, b))))
            λ b.
              if-Ensures (t.type == TokenType.true_lit) _ _
                (λ c. next-Ensures _ t g (
                  literal-Ensures t g (Node.boolean true) w first
                    (unfold literal_node in ground (arith, a, b, c))))
                λ c.
                  if-Ensures (t.type == TokenType.false_lit) _ _
                    (λ d. next-Ensures _ t g (
                      literal-Ensures t g (Node.boolean false) w first
                        (unfold literal_node in ground (arith, a, b, c, d))))
                    λ d.
                      if-Ensures (t.type == TokenType.num || t.type == TokenType.str) _ _
                        (λ e. next-Ensures _ t g (
                          literal-Ensures t g (from_value t.value) w first
                            (unfold literal_node in ground (arith, a, b, c, d, e))))
                        λ e.
                          if-Ensures (t.type == b'(') _ _
                            (λ f.
                              let is = ==→eq t.type b'(' f in
                              let taken = first_token t gmr g (λ q. omega (arith, is, q)) first in
                              let n = ap length taken in
                              next-Ensures _ t g (
                                call-Ensures no_in self fuel reading _ (start Level.expr) g w
                                  (omega (arith, n))
                                  λ node g₁ r. expect-Ensures _ b')' r.valid λ u g₂ is' w₂ first'.
                                    let taken' =
                                      first_token u g₁ g₂ (λ q. omega (arith, is', q)) first' in
                                    Ensures-done no_in gmr g₂ (start Level.member) node
                                      (t ∷ (r.taken ++ u ∷ [])) w₂
                                      (rw (taken, r.split, taken') (simp append_assoc))
                                      (parentheses t u is r.meaning is')))
                            (λ _. failed (λ q. cc))

module _ {D : Type 0} (no_in : Bool) (self : Call D → Parser (List (Token D)) D (Node D)) (fuel : ℕ)
    (reading : Reading no_in self fuel) (gmr : Tape D) (v : IsValid no_in gmr) where
  pub member-Ensures :
      need (start Level.member) gmr ≤ fuel
      → Ensures (IsRead no_in gmr (start Level.member)) (grammar_member_expr tape self gmr)
  unfolding grammar_member_expr need rank level_rank
  member-Ensures enough = lookahead-Ensures _ v λ t g w first.
      let same = pushed_back t gmr g first in
      let n = ap length same in
      if-Ensures (t.type == TokenType.function || t.type == TokenType.new) _ _
        (λ _. failed (λ q. cc))
        λ _.
          Ensures-bind
            (primary-Ensures no_in self fuel reading (pushback t g) (pushback-IsValid t w)
              (omega (arith, n)))
            λ x r.
              let n' = length-split r.taken (pushback t g) x.1 r.split in
              Ensures-after no_in gmr x.1 (start Level.member) (member_loop x.0) r.taken
                (same ∙ r.split) (unfold Meaning in λ us m d. d r.taken r.meaning)
                (reading (member_loop x.0) x.1 r.valid (omega (arith, n, n')))

  module _ (again : Node D → Call D) (level : Level) where
    -- The loop goes on with `again`, and ends as an expression of the level.
    unfoldable pub IsLoop : Type 0
    IsLoop =
        (n : Node D)
        → (rank (again n) ≡ 0)
          × ((us : List (Token D)) (m : Node D)
              → Meaning no_in (again n) us m ↔ (
                  (ts : List (Token D))
                  → Derives no_in Level.member ts n
                  → Derives no_in level (ts ++ us) m))

    pub round-Ensures :
        IsLoop
        → ((ts : List (Token D)) (n : Node D)
            → Derives no_in Level.member ts n
            → Derives no_in level ts n)
        → (cur : Node D) → 18 * length (view gmr) ≤ fuel
        → Ensures (IsRead no_in gmr (again cur)) (member_round tape self again cur gmr)
    unfolding member_round need IsLoop
    round-Ensures loop up cur enough = lookahead-Ensures _ v λ t g w first.
        if-Ensures (t.type == b'.') _ _
          (λ e.
            let is = ==→eq t.type b'.' e in
            let taken = first_token t gmr g (λ q. omega (arith, is, q)) first in
            let n = ap length taken in
            next-Ensures _ t g (
              expect-Ensures _ TokenType.id w λ u g₂ is' w₂ first'.
                let taken' = first_token u g g₂ (λ q. omega (arith, is', q)) first' in
                let n' = ap length taken' in
                let node = Node.binary BinaryNodeType.member_node cur (from_value u.value) in
                let (z, meaning) = loop node in
                Ensures-after no_in gmr g₂ (again cur) (again node) (t ∷ u ∷ [])
                  (rw (taken, taken') refl)
                  (λ us m d. ((loop cur).1 (t ∷ u ∷ us) m).1 (λ ts c.
                    subst (λ x. Derives no_in level x m) (append_assoc ts (t ∷ u ∷ []) us)
                      ((meaning us m).0 d (ts ++ t ∷ u ∷ []) (dot t u c is is'))))
                  (reading (again node) g₂ w₂ (omega (arith, n, n', z)))))
          (λ _.
            if-Ensures (t.type == b'[') _ _
              (λ e.
                let is = ==→eq t.type b'[' e in
                let taken = first_token t gmr g (λ q. omega (arith, is, q)) first in
                let n = ap length taken in
                next-Ensures _ t g (
                  call-Ensures no_in self fuel reading _ (start Level.expr) g w
                    (unfold rank level_rank in omega (arith, n))
                    λ i g₁ r. expect-Ensures _ b']' r.valid λ u g₂ is' w₂ first'.
                      let taken' = first_token u g₁ g₂ (λ q. omega (arith, is', q)) first' in
                      let n₁ = length-split r.taken g g₁ r.split in
                      let n₂ = ap length taken' in
                      let node = Node.binary BinaryNodeType.member_node cur i in
                      let (z, meaning) = loop node in
                      let inner : Derives no_in Level.expr r.taken i =
                        unfold Meaning in r.meaning in
                      let read = t ∷ (r.taken ++ u ∷ []) in
                      Ensures-after no_in gmr g₂ (again cur) (again node) read
                        (rw (taken, r.split, taken') (simp append_assoc))
                        (λ us m d. ((loop cur).1 (read ++ us) m).1 (λ ts c.
                          subst (λ x. Derives no_in level x m) (append_assoc ts read us)
                            ((meaning us m).0 d (ts ++ read) (index t u c is inner is'))))
                        (reading (again node) g₂ w₂ (omega (arith, n, n₁, n₂, z)))))
              (λ _. Ensures-pure no_in gmr g (again cur) cur t [] w first (
                ((loop cur).1 [] cur).1 (λ ts c.
                  subst (λ x. Derives no_in level x cur) (sym (append-nil ts)) (up ts cur c)))))
