-- ===== src/Js/Lex/Termination/Progress.antt =====
-- libs/js/lex.c: what `lex_next` leaves behind a token.
use saki_os.Base.{
  ℕ, zero, suc, ◌+◌, ◌*◌, ◌≤◌, ◌<◌, ◌≡◌, ◌≢◌, refl, false, ltb, length, none, some, inl, inr, ok,
  fault, ap, ◌∙◌, arith, Bool-cases,
}
use saki_os.Js.Lex.Default.{state_default}
use saki_os.Js.Lex.States.{is_identifier_type, run_state, lex_next}
use saki_os.Js.Lex.Termination.{Moved, Round, stage}
use saki_os.Js.Lex.Termination.Default.{state_default-Proper, state_default_at_end}
use saki_os.Js.Lex.Termination.Loop.{run_state-Round, Unterminated-decided, lex_next-Unterminated}
use saki_os.Js.Lex.{Env, Lex, State, Step}
use saki_os.Js.Token.{Token, js_alloc_token}
use saki_os.Js.TokenType

module _ {D : Type 0} where
  -- `lex` was in front of the token `t`, and `l` is behind it.
  pub record Taken (lex : Lex D) (t : Token D) (l : Lex D) : Type 0 where
    pub moved : Moved lex l
    pub state : l.state ≡ State.default
    pub fresh : l.line_before ≡ false
    pub progress : t.type ≢ TokenType.end_of_file → 2 * lex.ptr < 2 * l.ptr + stage lex.state

  module _ (env : Env D) where
    state_default-progress :
        (lex : Lex D) (t : Token D) (l : Lex D)
        → lex.ptr ≤ length lex.content
        → state_default env lex ≡ ok (some t, l)
        → t.type ≢ TokenType.end_of_file
        → lex.ptr < l.ptr
    unfolding js_alloc_token
    state_default-progress lex t l inside e type =
        elim (Bool-cases (ltb lex.ptr (length lex.content))) [
          | inl before ↦
              let m = (state_default-Proper env lex (ground (arith, before))).moves (some t) l e in
              ground (arith, before, m.forward)
          | inr at_end ↦
              let same = state_default_at_end env lex (ground (arith, at_end)) in
              ground (arith, same, e, type)
        ]

    round-progress :
        (lex : Lex D) (s : State)
        → lex.state ≡ s
        → lex.ptr ≤ length lex.content
        → (t : Token D) (l : Lex D) → Moved lex l
        → run_state env s lex ≡ ok (some t, l)
        → t.type ≢ TokenType.end_of_file
        → 2 * lex.ptr < 2 * l.ptr + stage lex.state
    unfolding run_state stage
    round-progress lex State.default same inside t l m e type =
        let p = state_default-progress lex t l inside e type in omega (arith, p)
    round-progress lex State.single_line_comment same inside t l m e type =
        omega (arith, m.forward, ap stage same)
    round-progress lex State.multi_line_comment same inside t l m e type =
        omega (arith, m.forward, ap stage same)
    round-progress lex State.identifier_part same inside t l m e type =
        omega (arith, m.forward, ap stage same)
    round-progress lex State.hex_integer_literal same inside t l m e type =
        omega (arith, m.forward, ap stage same)
    round-progress lex State.oct_integer_literal same inside t l m e type =
        omega (arith, m.forward, ap stage same)
    round-progress lex State.double_string same inside t l m e type =
        omega (arith, m.forward, ap stage same)
    round-progress lex State.single_string same inside t l m e type =
        omega (arith, m.forward, ap stage same)

    -- When `lex_next` returns a token, the text is as before, and the position is inside it and no
    -- earlier; it is later, or the state was not `stateDefault`, unless the token is END_OF_FILE. The
    -- state is `stateDefault`, and `lineBefore` is reset. The lexer was inside its text, and the
    -- lookahead at the end must not have the category of a part of an identifier.
    pub lex_next-Taken :
        (fuel : ℕ) (lex : Lex D) (t : Token D) (l : Lex D)
        → is_identifier_type (env.get_type 0xFFFF) ≡ false
        → lex.ptr ≤ length lex.content
        → lex_next env fuel lex ≡ ok (t, l)
        → Taken lex t l
    unfolding lex_next
    lex_next-Taken zero lex t l ends inside e = ground arith
    lex_next-Taken (suc fuel) lex t l ends inside e = elim (Unterminated-decided lex inside) [
      | inl u ↦ let never = lex_next-Unterminated env lex u (suc fuel) in ground (arith, never, e)
      | inr fair ↦
          after_round (run_state env lex.state lex) refl
            (run_state-Round env lex ends inside fair lex.state refl)
            (λ l'. lex_next-Taken fuel l' t l ends)
    ]
      where
        after_round :
            (r : Step D)
            → run_state env lex.state lex ≡ r
            → Round lex (run_state env lex.state lex)
            → ((l' : Lex D)
                → l'.ptr ≤ length l'.content
                → lex_next env fuel l' ≡ ok (t, l)
                → Taken l' t l)
            → Taken lex t l
        after_round (fault x) q p ih = let e' = rw q at e in ground (arith, e')
        after_round (ok (some t₀, l₀)) q p ih =
            let e' = rw q at e in
            let m = p.moves (some t₀) l₀ q in
            let s = p.returns t₀ l₀ q in
            let step = round-progress lex lex.state refl inside t₀ l₀ m q in
            record {
              moved = ground (arith, e', m.content, m.forward, m.inside);
              state = ground (arith, e', s);
              fresh = ground (arith, e');
              progress = λ h. ground (arith, e', step, h);
            }
        after_round (ok (none, l₀)) q p ih =
            let e' = rw q at e in
            let m = p.moves none l₀ q in
            let c = p.closer l₀ q in
            let same : length l₀.content ≡ length lex.content = ap length m.content in
            let rest = ih l₀ (omega (arith, m.inside, same)) e' in
            record {
              moved = record {
                content = rest.moved.content ∙ m.content;
                forward = omega (arith, m.forward, rest.moved.forward);
                inside = omega (arith, rest.moved.inside, same);
              };
              state = rest.state;
              fresh = rest.fresh;
              progress = λ h. omega (arith, c, rest.progress h);
            }
