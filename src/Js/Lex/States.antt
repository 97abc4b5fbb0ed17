-- ===== src/Js/Lex/States.antt =====
-- The other states of libs/js/lex.c, and `lex_new` and `lex_next`.
use saki_os.Base.{
  ℕ, zero, suc, ◌+◌, ◌-◌, Bool, true, false, not, ◌&&◌, ◌||◌, List, [], none, some, ◌==◌, leb,
  if◌then◌else◌, Result, ok, fault, assertion, out_of_fuel, ◌>>=◌,
}
use saki_os.Js.Lex.Default.{go_on, state_default}
use saki_os.Js.Lex.Keywords.{lookup_keyword}
use saki_os.Js.Lex.{
  Env, State, Lex, Step, lookahead, advance, append_to_buffer, is_line_end, is_letter,
}
use saki_os.Js.Token.{Token, Value, js_alloc_token}
use saki_os.Js.TokenType
use saki_os.Unicode.Convert.{unicode_to_utf16}

-- RESERVED_STRICT is reserved in strict mode only
abbrev pub word_type : Bool → ℕ → ℕ
word_type strict type =
    if type == TokenType.reserved_strict
    then (if strict then TokenType.reserved_word else 0)
    else type

-- the categories that continue an identifier
abbrev pub is_identifier_type : ℕ → Bool
is_identifier_type t = is_letter t || t == 23 || t == 9 || t == 6 || t == 8

module _ {D : Type 0} where
  -- `lex->next(lex); appendToBuffer(lex, next); return NULL;`
  abbrev pub take_unit : ℕ → Lex D → Step D
  take_unit next lex = do lex' ← append_to_buffer next lex; go_on lex'

  -- a token with a value, with the lexer back in `stateDefault`
  abbrev pub give_value : ℕ → Value D → Lex D → Step D
  give_value type value lex =
      ok (
        some (record (js_alloc_token type) { value = value }),
        record lex { state = State.default },
      )

  unfoldable pub state_single_line_comment : Lex D → Step D
  state_single_line_comment lex =
      if is_line_end (lookahead lex)
      then go_on (record lex { state = State.default })
      else go_on (advance lex)

  unfoldable pub state_multi_line_comment : Lex D → Step D
  state_multi_line_comment lex₀ =
      let next = lookahead lex₀ in
      let lex = advance lex₀ in
      if next == b'*'
      then (if lookahead lex == b'/'
          then go_on (record (advance lex) { state = State.default })
          else go_on lex)
      else if is_line_end next
      then go_on (record lex { line_before = true })
      else go_on lex

  unfoldable pub finish_identifier : Lex D → Step D
  finish_identifier lex =
      if not lex.parse_id then give_value TokenType.id (Value.string lex.buffer) lex else do
        found ← lookup_keyword lex.buffer
        let type = word_type lex.strict_mode found
        if type == 0
            then give_value TokenType.id (Value.string lex.buffer) lex
            else if type == TokenType.reserved_word
            then fault assertion
            else give_value type Value.null lex

  -- `dealEscapeSequence`
  unfoldable pub deal_escape_sequence : Lex D → Result (Lex D)
  deal_escape_sequence lex₀ =
      let next = lookahead lex₀ in
      let lex = advance lex₀ in
      if next == 0xD && lookahead lex == 0xA
      then ok (advance lex)
      else if is_line_end next
      then ok lex
      else fault assertion

  -- `stateDoubleString` and `stateSingleString` differ in the quote alone.
  unfoldable pub state_string : ℕ → Lex D → Step D
  state_string quote lex₀ =
      let next = lookahead lex₀ in
      let lex = advance lex₀ in
      if next == quote
      then give_value TokenType.str (Value.string lex.buffer) lex
      else if next == 0x5C
      then (do lex' ← deal_escape_sequence lex; go_on lex')
      else if is_line_end next || next == 0xFFFF
      then fault assertion
      else take_unit next lex

  module _ (env : Env D) where
    open env use {get_type, of_int, mul, add}

    unfoldable pub state_identifier_part : Lex D → Step D
    state_identifier_part lex =
        let next = lookahead lex in
        if next == b'$' || next == b'_' || next == 0x200C || next == 0x200D
        then take_unit next (advance lex)
        else if next == 0x5C
        then fault assertion
        else if is_identifier_type (get_type next)
        then take_unit next (advance lex)
        else finish_identifier lex

    abbrev pub add_digit : ℕ → ℕ → Lex D → Step D
    add_digit radix digit lex =
        go_on (record (advance lex) { number = add (mul lex.number (of_int radix)) (of_int digit) })

    -- the end of a number literal
    abbrev pub finish_number : Bool → Lex D → Step D
    finish_number bad lex =
        if bad || is_letter (get_type (lookahead lex))
        then fault assertion
        else give_value TokenType.num (Value.number lex.number) lex

    unfoldable pub state_oct_integer_literal : Lex D → Step D
    state_oct_integer_literal lex =
        let next = lookahead lex in
        if leb b'0' next && leb next b'7'
        then add_digit 8 (next - b'0') lex
        else finish_number
            (next == b'8' || next == b'9' || next == b'$' || next == b'_' || next == 0x5C) lex

    unfoldable pub state_hex_integer_literal : Lex D → Step D
    state_hex_integer_literal lex =
        let next = lookahead lex in
        if leb b'0' next && leb next b'9'
        then add_digit 16 (next - b'0') lex
        else if leb b'a' next && leb next b'f'
        then add_digit 16 (10 + (next - b'a')) lex
        else if leb b'A' next && leb next b'F'
        then add_digit 16 (10 + (next - b'A')) lex
        else finish_number (next == b'$' || next == b'_' || next == 0x5C) lex

    -- `lex->state(lex)`
    unfoldable pub run_state : State → Lex D → Step D
    run_state State.default lex = state_default env lex
    run_state State.single_line_comment lex = state_single_line_comment lex
    run_state State.multi_line_comment lex = state_multi_line_comment lex
    run_state State.identifier_part lex = state_identifier_part lex
    run_state State.hex_integer_literal lex = state_hex_integer_literal lex
    run_state State.oct_integer_literal lex = state_oct_integer_literal lex
    run_state State.double_string lex = state_string b'"' lex
    run_state State.single_string lex = state_string 0x27 lex

    -- the loop of `lex_next`
    unfoldable pub lex_next : ℕ → Lex D → Result (Token D × Lex D)
    lex_next zero lex = fault out_of_fuel
    lex_next (suc fuel) lex = do
      (ret, lex') ← run_state lex.state lex
      elim ret [
        | some token ↦
            ok
              (record token { line_before = lex'.line_before }, record lex' { line_before = false })
        | none ↦ lex_next fuel lex'
      ]

    -- The union is not yet set: an empty buffer and the number 0 stand for it.
    unfoldable pub lex_new : List ℕ → Result (Lex D)
    lex_new chr = do
      content ← unicode_to_utf16 chr
      ok (record {
        content = content;
        ptr = 0;
        state = State.default;
        regexp = false;
        strict_mode = true;
        line_before = false;
        parse_id = true;
        buffer = [];
        size = 0;
        number = of_int 0;
      })
