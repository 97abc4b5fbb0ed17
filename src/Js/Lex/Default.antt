-- ===== src/Js/Lex/Default.antt =====
-- `stateDefault` of libs/js/lex.c, one function for each group of its cases. `next` is the character
-- that was consumed, and `lex` the lexer behind it.
use Prim.Native.Nat.{bit_or}
use saki_os.Base.{
  ℕ, Bool, true, ◌&&◌, ◌||◌, none, some, ◌==◌, leb, if◌then◌else◌, ok, fault, assertion, ◌>>=◌,
}
use saki_os.Js.Lex.{
  Env, State, Lex, Step, lookahead, advance, create_buffer, append_to_buffer, is_letter,
}
use saki_os.Js.Token.{js_alloc_token}
use saki_os.Js.TokenType
use saki_os.Js.TokenType.{assign_flag, double_flag}

-- the characters that are a token on their own
abbrev pub is_single : ℕ → Bool
is_single c =
    c == b'{'
    || c == b'}'
    || c == b'('
    || c == b')'
    || c == b'['
    || c == b']'
    || c == b'.'
    || c == b';'
    || c == b','
    || c == b'~'
    || c == b'?'
    || c == b':'

module _ {D : Type 0} where
  -- `return js_allocToken(type)`
  abbrev pub give : ℕ → Lex D → Step D
  give type lex = ok (some (js_alloc_token type), lex)

  -- `return NULL`
  abbrev pub go_on : Lex D → Step D
  go_on lex = ok (none, lex)

  unfoldable pub case_slash : Lex D → Step D
  case_slash lex =
      if lookahead lex == b'/'
      then go_on (record lex { state = State.single_line_comment })
      else if lookahead lex == b'*'
      then go_on (record lex { state = State.multi_line_comment })
      else if lex.regexp
      then fault assertion
      else if lookahead lex == b'='
      then give (bit_or b'/' assign_flag) (advance lex)
      else give b'/' lex

  unfoldable pub case_lt : Lex D → Step D
  case_lt lex =
      if lookahead lex == b'='
      then give (bit_or b'<' assign_flag) (advance lex)
      else if lookahead lex == b'<'
      then (let lex = advance lex in
          if lookahead lex == b'='
          then give TokenType.shl_assign (advance lex)
          else give TokenType.shl lex)
      else give b'<' lex

  unfoldable pub case_gt : Lex D → Step D
  case_gt lex =
      if lookahead lex == b'='
      then give (bit_or b'>' assign_flag) (advance lex)
      else if lookahead lex == b'>'
      then (let lex = advance lex in
          if lookahead lex == b'='
          then give TokenType.shr_assign (advance lex)
          else if lookahead lex == b'>'
          then (let lex = advance lex in
              if lookahead lex == b'='
              then give TokenType.ushr_assign (advance lex)
              else give TokenType.ushr lex)
          else give TokenType.shr lex)
      else give b'>' lex

  unfoldable pub case_equal : ℕ → Lex D → Step D
  case_equal next lex =
      if lookahead lex == b'='
      then (let lex = advance lex in
          if lookahead lex == b'='
          then give (if next == b'=' then TokenType.full_eq else TokenType.full_ineq) (advance lex)
          else give (bit_or next assign_flag) lex)
      else give next lex

  unfoldable pub case_double : ℕ → Lex D → Step D
  case_double next lex =
      if lookahead lex == b'='
      then give (bit_or next assign_flag) (advance lex)
      else if lookahead lex == next
      then give (bit_or next double_flag) (advance lex)
      else give next lex

  unfoldable pub case_assign : ℕ → Lex D → Step D
  case_assign next lex =
      if lookahead lex == b'=' then give (bit_or next assign_flag) (advance lex) else give next lex

  -- a letter, `$` or `_`
  unfoldable pub case_identifier : ℕ → Lex D → Step D
  case_identifier next lex = do
    lex' ← append_to_buffer next (create_buffer lex)
    go_on (record lex' { state = State.identifier_part })

  module _ (env : Env D) where
    open env use {get_type, of_int}

    -- the case `'0'`, which falls through to the assertion of the decimal digits
    unfoldable pub case_zero : Lex D → Step D
    case_zero lex =
        let nch = lookahead lex in
        if nch == b'x' || nch == b'X'
        then go_on (record (advance lex) { state = State.hex_integer_literal; number = of_int 0 })
        else if leb b'0' nch && leb nch b'9'
        then (if lex.strict_mode
            then fault assertion
            else go_on (record lex { state = State.oct_integer_literal; number = of_int 0 }))
        else fault assertion

    -- behind the `switch` on the character: its category decides
    unfoldable pub case_category : ℕ → Lex D → Step D
    case_category next lex =
        if get_type next == 12
        then go_on lex
        else if is_letter (get_type next)
        then case_identifier next lex
        else fault assertion

    unfoldable pub case_word : ℕ → Lex D → Step D
    case_word next lex =
        if next == b'0'
        then case_zero lex
        else if leb b'1' next && leb next b'9'
        then fault assertion
        else if next == b'"'
        then go_on (create_buffer (record lex { state = State.double_string }))
        else if next == 0x27
        then go_on (create_buffer (record lex { state = State.single_string }))
        else if next == 0xFFFF
        then give TokenType.end_of_file (record lex { line_before = true })
        else case_category next lex

  unfoldable pub case_operator : Env D → ℕ → Lex D → Step D
  case_operator env next lex =
      if is_single next
      then give next lex
      else if next == b'<'
      then case_lt lex
      else if next == b'>'
      then case_gt lex
      else if next == b'=' || next == b'!'
      then case_equal next lex
      else if next == b'+' || next == b'-' || next == b'&' || next == b'|'
      then case_double next lex
      else if next == b'*' || next == b'%' || next == b'^'
      then case_assign next lex
      else case_word env next lex

  unfoldable pub state_default : Env D → Lex D → Step D
  state_default env lex₀ =
      let next = lookahead lex₀ in
      let lex = advance lex₀ in
      if next == 0x9 || next == 0xB || next == 0xC || next == 0x20 || next == 0xA0 || next == 0xFEFF
      then go_on lex
      else if next == 0xD
      then go_on (record (if lookahead lex == 0xA then advance lex else lex) { line_before = true })
      else if next == 0xA || next == 0x2028 || next == 0x2029
      then go_on (record lex { line_before = true })
      else if next == b'/'
      then case_slash lex
      else if next == b'$' || next == b'_'
      then case_identifier next lex
      else if next == 0x5C
      then fault assertion
      else case_operator env next lex
