-- ===== src/Js/Lex/Termination/Loop.antt =====
-- The loop of `lex_next` in libs/js/lex.c.
use saki_os.Base.{
  ℕ, zero, suc, ◌+◌, ◌*◌, ◌≤◌, ◌<◌, ◌≡◌, ◌≢◌, ◌⊎◌, refl, false, ◌==◌, ltb, none, some, length, ap,
  ◌∙◌, inl, inr, ok, fault, out_of_fuel, arith, Bool-cases,
}
use saki_os.Js.Lex.Termination.{Moved, Round, stage}
use saki_os.Js.Lex.Termination.Default.{state_default-Proper, state_default_at_end}
use saki_os.Js.Lex.Termination.States.{
  single_line_comment-Round, multi_line_comment-Round, string-Round, identifier_part-Round,
  oct_integer_literal-Round, hex_integer_literal-Round,
}
use saki_os.Js.Lex.Default.{state_default}
use saki_os.Js.Lex.States.{
  is_identifier_type, run_state, lex_next, state_single_line_comment, state_multi_line_comment,
}
use saki_os.Js.Lex.{Env, State, Lex, Step, advance}

unfoldable pub InComment : State → Type 0
InComment State.single_line_comment = Unit {0}
InComment State.multi_line_comment = Unit {0}
InComment State.default = ⊥
InComment State.identifier_part = ⊥
InComment State.hex_integer_literal = ⊥
InComment State.oct_integer_literal = ⊥
InComment State.double_string = ⊥
InComment State.single_string = ⊥

InComment-decided : (s : State) → InComment s ⊎ (¬ InComment s)
unfolding InComment
InComment-decided s = ground arith

stage_bound : (s : State) → stage s ≤ 1
unfolding stage
stage_bound s = ground arith

module _ {D : Type 0} where
  -- a comment that the text ends in
  abbrev pub Unterminated : Lex D → Type 0
  Unterminated lex = InComment lex.state × (lex.ptr ≡ length lex.content)

  Moved-advance :
      (lex l : Lex D) → lex.ptr < length lex.content → Moved (advance lex) l → Moved lex l
  Moved-advance lex l room m = record {
    content = m.content ∙ ground arith;
    forward = ground (arith, m.forward);
    inside = ground (arith, m.inside);
  }

  pub default-Round :
      (env : Env D) (lex : Lex D)
      → lex.state ≡ State.default
      → lex.ptr ≤ length lex.content
      → Round lex (state_default env lex)
  unfolding stage
  default-Round env lex s inside = elim (Bool-cases (ltb lex.ptr (length lex.content))) [
    | inl before ↦
        let room : lex.ptr < length lex.content = ground (arith, before) in
        let step = state_default-Proper env lex room in
        record {
          halts = step.halts;
          moves = λ o l e. Moved-advance lex l room (step.moves o l e);
          returns = λ t l e.
              let k : (advance lex).state ≡ lex.state = ground arith in step.keeps t l e ∙ k ∙ s;
          closer = λ l e.
              let m = (step.moves none l e).forward in
              let b = stage_bound l.state in let z = ap stage s in ground arith;
        }
    | inr at_end ↦
        let same = state_default_at_end env lex (ground (arith, at_end)) in
        record {
          halts = ground (arith, same);
          moves = λ o l e. ground (arith, same);
          returns = λ t l e. ground (arith, same, s);
          closer = λ l e. ground (arith, same);
        }
  ]

  pub run_state-Round :
      (env : Env D) (lex : Lex D)
      → is_identifier_type (env.get_type 0xFFFF) ≡ false
      → lex.ptr ≤ length lex.content
      → ¬ Unterminated lex
      → (s : State) → lex.state ≡ s
      → Round lex (run_state env s lex)
  unfolding run_state InComment
  run_state-Round env lex ends inside fair State.default e = default-Round env lex e inside
  run_state-Round env lex ends inside fair State.single_line_comment e =
      single_line_comment-Round e (ground (arith, InComment, fair, e))
  run_state-Round env lex ends inside fair State.multi_line_comment e =
      multi_line_comment-Round e (ground (arith, InComment, fair, e))
  run_state-Round env lex ends inside fair State.identifier_part e =
      identifier_part-Round env ends inside
  run_state-Round env lex ends inside fair State.hex_integer_literal e =
      hex_integer_literal-Round env inside
  run_state-Round env lex ends inside fair State.oct_integer_literal e =
      oct_integer_literal-Round env inside
  run_state-Round env lex ends inside fair State.double_string e =
      string-Round b'"' (omega arith) inside
  run_state-Round env lex ends inside fair State.single_string e =
      string-Round 0x27 (omega arith) inside

  Unterminated-step :
      (env : Env D) (lex : Lex D)
      → Unterminated lex
      → (s : State) → lex.state ≡ s
      → run_state env s lex ≡ ok (none, lex)
  unfolding run_state InComment state_single_line_comment state_multi_line_comment
  Unterminated-step env lex u s e = ground (arith, InComment, u.0, u.1, e)

  pub Unterminated-decided :
      (lex : Lex D) → lex.ptr ≤ length lex.content → Unterminated lex ⊎ (¬ Unterminated lex)
  Unterminated-decided lex inside = elim (InComment-decided lex.state) [
    | inr out ↦ inr (λ u. out u.0)
    | inl comment ↦ elim (Bool-cases (lex.ptr == length lex.content)) [
      | inl at_end ↦ inl (comment, ground (arith, at_end))
      | inr before ↦ inr (λ u. ground (arith, before, u.1))
    ]
  ]

  module _ (env : Env D) where
    -- rounds of the loop in `lex_next`
    pub data Rounds : Lex D → Lex D → Type 0 where
      done : {lex : Lex D} → Rounds lex lex
      round :
          {lex l m : Lex D} → run_state env lex.state lex ≡ ok (none, l) → Rounds l m → Rounds lex m

    -- Before the next token there is a comment that the text ends in.
    unfoldable pub EndsInComment : Lex D → Type 0
    EndsInComment lex = (l : Lex D) × Rounds lex l × Unterminated l

    pub lex_next-Unterminated :
        (lex : Lex D) → Unterminated lex → (fuel : ℕ) → lex_next env fuel lex ≡ fault out_of_fuel
    unfolding lex_next
    lex_next-Unterminated lex u zero = refl
    lex_next-Unterminated lex u (suc fuel) =
        rw (Unterminated-step env lex u lex.state refl, lex_next-Unterminated lex u fuel)

    lex_next-Rounds :
        {lex l : Lex D}
        → Rounds lex l
        → Unterminated l
        → (fuel : ℕ) → lex_next env fuel lex ≡ fault out_of_fuel
    unfolding lex_next
    lex_next-Rounds done u fuel = lex_next-Unterminated _ u fuel
    lex_next-Rounds (round e r) u zero = refl
    lex_next-Rounds (round e r) u (suc fuel) = rw (e, lex_next-Rounds r u fuel)

    -- `lex_next` never returns when the text ends in a comment before the next token.
    pub lex_next-EndsInComment :
        (lex : Lex D) → EndsInComment lex → (fuel : ℕ) → lex_next env fuel lex ≡ fault out_of_fuel
    unfolding EndsInComment
    lex_next-EndsInComment lex (l, r, u) fuel = lex_next-Rounds r u fuel

    -- Two rounds for each character that is left, one more in a state that is not `stateDefault`, and
    -- one for the end are enough: `lex_next` ends, with a token, at a failed assertion or at an access
    -- outside an object, or the text ends in a comment. The position is inside the text, and the
    -- lookahead at its end does not have the category of a part of an identifier.
    pub lex_next-halts :
        (fuel : ℕ) (lex : Lex D)
        → is_identifier_type (env.get_type 0xFFFF) ≡ false
        → lex.ptr ≤ length lex.content
        → 2 * length lex.content + stage lex.state < fuel + 2 * lex.ptr
        → (lex_next env fuel lex ≢ fault out_of_fuel) ⊎ EndsInComment lex
    unfolding lex_next EndsInComment
    lex_next-halts zero lex ends inside enough = absurd (omega arith)
    lex_next-halts (suc fuel) lex ends inside enough = elim (Unterminated-decided lex inside) [
      | inl u ↦ inr (lex, done, u)
      | inr fair ↦
          after_round (run_state env lex.state lex) refl
            (run_state-Round env lex ends inside fair lex.state refl)
            (λ l. lex_next-halts fuel l ends)
    ]
      where
        after_round :
            (r : Step D)
            → run_state env lex.state lex ≡ r
            → Round lex (run_state env lex.state lex)
            → ((l : Lex D)
                → l.ptr ≤ length l.content
                → 2 * length l.content + stage l.state < fuel + 2 * l.ptr
                → (lex_next env fuel l ≢ fault out_of_fuel) ⊎ EndsInComment l)
            → (lex_next env (suc fuel) lex ≢ fault out_of_fuel) ⊎ EndsInComment lex
        after_round (fault x) e p ih = inl (ground (arith, e, p.halts))
        after_round (ok (some t, l)) e p ih = inl (ground (arith, e))
        after_round (ok (none, l)) e p ih =
            let m = p.moves none l e in
            let c = p.closer l e in
            let same : length l.content ≡ length lex.content = ap length m.content in
            elim (ih l (omega (arith, m.inside, same)) (omega arith)) [
              | inl halts ↦ inl (λ q. halts (rw (e) at q))
              | inr (k, r, u) ↦ inr (k, round e r, u)
            ]
