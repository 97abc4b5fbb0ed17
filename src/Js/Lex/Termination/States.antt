-- ===== src/Js/Lex/Termination/States.antt =====
-- The states of libs/js/lex.c other than `stateDefault` come closer to the end of the text, a comment
-- at that end excepted.
use saki_os.Base.{
  ℕ, ◌≤◌, ◌<◌, ◌≡◌, refl, Bool, true, false, ◌==◌, ◌||◌, if◌then◌else◌, length, ap, Bool-cases, inl,
  inr, fault, assertion, arith,
}
use saki_os.Js.Lex.Keywords.Table.{lookup_keyword-last_value}
use saki_os.Js.Lex.Termination.{Round, stage}
use saki_os.Js.Lex.States.{
  take_unit, give_value, finish_identifier, deal_escape_sequence, state_string,
  state_identifier_part, state_oct_integer_literal, state_hex_integer_literal,
  state_single_line_comment, state_multi_line_comment, is_identifier_type,
}
use saki_os.Js.Token.{Value}
use saki_os.Js.Lex.{Env, State, Lex, Step, advance, lookahead, append_to_buffer}

identifier_room :
    {D : Type 0} (env : Env D) (lex : Lex D)
    → is_identifier_type (env.get_type 0xFFFF) ≡ false
    → lex.ptr ≤ length lex.content
    → is_identifier_type (env.get_type (lookahead lex)) ≡ true
    → lex.ptr < length lex.content
identifier_room env lex ends inside e = elim (Bool-cases (lex.ptr == length lex.content)) [
  | inl at_end ↦ let behind : lookahead lex ≡ 0xFFFF = rw at_end in cc
  | inr before ↦ ground (arith, before)
]

module _ {D : Type 0} {lex : Lex D} where
  pub give_value-Round :
      lex.ptr ≤ length lex.content → (type : ℕ) (v : Value D) → Round lex (give_value type v lex)
  give_value-Round inside type v = record {
    halts = ground arith;
    moves = λ o l e. ground arith;
    returns = λ t l e. ground arith;
    closer = λ l e. ground arith;
  }

  pub assertion-Round : Round lex (fault assertion)
  assertion-Round = record {
    halts = ground arith;
    moves = λ o l e. ground arith;
    returns = λ t l e. ground arith;
    closer = λ l e. ground arith;
  }

  pub decide-Round :
      (b : Bool) {x y : Step D}
      → (b ≡ true → Round lex x)
      → (b ≡ false → Round lex y)
      → Round lex (if b then x else y)
  decide-Round true p q = p refl
  decide-Round false p q = q refl

  pub take_unit-Round :
      (next : ℕ) → lex.ptr < length lex.content → Round lex (take_unit next (advance lex))
  unfolding append_to_buffer
  take_unit-Round next room = record {
    halts = ground arith;
    moves = λ o l e. ground arith;
    returns = λ t l e. ground arith;
    closer = λ l e. ground arith;
  }

  pub finish_identifier-Round : lex.ptr ≤ length lex.content → Round lex (finish_identifier lex)
  unfolding finish_identifier
  finish_identifier-Round inside =
      let found = lookup_keyword-last_value lex.buffer in
      record {
        halts = ground (arith, found);
        moves = λ o l e. ground (arith, found);
        returns = λ t l e. ground (arith, found);
        closer = λ l e. ground (arith, found);
      }

  pub single_line_comment-Round :
      lex.state ≡ State.single_line_comment
      → lex.ptr < length lex.content
      → Round lex (state_single_line_comment lex)
  unfolding state_single_line_comment stage
  single_line_comment-Round s room = record {
    halts = ground arith;
    moves = λ o l e. ground arith;
    returns = λ t l e. ground arith;
    closer = λ l e. ground (arith, ap stage s);
  }

  pub multi_line_comment-Round :
      lex.state ≡ State.multi_line_comment
      → lex.ptr < length lex.content
      → Round lex (state_multi_line_comment lex)
  unfolding state_multi_line_comment stage
  multi_line_comment-Round s room = record {
    halts = ground arith;
    moves = λ o l e. ground arith;
    returns = λ t l e. ground arith;
    closer = λ l e. ground (arith, ap stage s);
  }

  pub string-Round :
      (quote : ℕ)
      → quote < 0xFFFF
      → lex.ptr ≤ length lex.content
      → Round lex (state_string quote lex)
  unfolding state_string deal_escape_sequence append_to_buffer
  string-Round quote q inside = record {
    halts = ground arith;
    moves = λ o l e. ground arith;
    returns = λ t l e. ground arith;
    closer = λ l e. ground arith;
  }

  -- The category of the lookahead at the end is not one of an identifier.
  pub identifier_part-Round :
      (env : Env D)
      → is_identifier_type (env.get_type 0xFFFF) ≡ false
      → lex.ptr ≤ length lex.content
      → Round lex (state_identifier_part env lex)
  unfolding state_identifier_part
  identifier_part-Round env ends inside =
      decide-Round
        (lookahead lex == b'$'
          || lookahead lex == b'_'
          || lookahead lex == 0x200C
          || lookahead lex == 0x200D)
        (λ e. take_unit-Round (lookahead lex) (ground (arith, e)))
        (λ _.
          decide-Round (lookahead lex == 0x5C) (λ _. assertion-Round)
            (λ _.
              decide-Round (is_identifier_type (env.get_type (lookahead lex)))
                (λ e. take_unit-Round (lookahead lex) (identifier_room env lex ends inside e))
                (λ _. finish_identifier-Round inside)))

  module _ (env : Env D) (inside : lex.ptr ≤ length lex.content) where
    pub oct_integer_literal-Round : Round lex (state_oct_integer_literal env lex)
    unfolding state_oct_integer_literal
    oct_integer_literal-Round = record {
      halts = ground arith;
      moves = λ o l e. ground arith;
      returns = λ t l e. ground arith;
      closer = λ l e. ground arith;
    }

    pub hex_integer_literal-Round : Round lex (state_hex_integer_literal env lex)
    unfolding state_hex_integer_literal
    hex_integer_literal-Round = record {
      halts = ground arith;
      moves = λ o l e. ground arith;
      returns = λ t l e. ground arith;
      closer = λ l e. ground arith;
    }
