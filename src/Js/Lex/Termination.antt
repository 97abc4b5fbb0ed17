-- ===== src/Js/Lex/Termination.antt =====
-- libs/js/lex.c: when `lex_next` returns.
pub mod Default
pub mod States
pub mod Loop
pub mod Progress
use saki_os.Base.{
  ℕ, ◌+◌, ◌*◌, ◌≤◌, ◌<◌, ◌≡◌, ◌≢◌, length, Option, none, some, ok, fault, out_of_fuel,
}
use saki_os.Js.Lex.{Lex, State, Step}
use saki_os.Js.Token.{Token}

-- A change to `stateDefault` counts as half a character.
unfoldable pub stage : State → ℕ
stage State.default = 0
stage State.single_line_comment = 1
stage State.multi_line_comment = 1
stage State.identifier_part = 1
stage State.hex_integer_literal = 1
stage State.oct_integer_literal = 1
stage State.double_string = 1
stage State.single_string = 1

module _ {D : Type 0} where
  -- `l` comes after `lex` over the same text, and is not past its end.
  pub record Moved (lex l : Lex D) : Type 0 where
    pub content : l.content ≡ lex.content
    pub forward : lex.ptr ≤ l.ptr
    pub inside : l.ptr ≤ length lex.content

  -- A step does not run out of fuel; if it returns it moves on, and a token leaves the state as it is.
  pub record Proper (lex : Lex D) (r : Step D) : Type 0 where
    pub halts : r ≢ fault out_of_fuel
    pub moves : (o : Option (Token D)) (l : Lex D) → r ≡ ok (o, l) → Moved lex l
    pub keeps : (t : Token D) (l : Lex D) → r ≡ ok (some t, l) → l.state ≡ lex.state

  -- A round of the loop in `lex_next` that does not end it has come closer to the end of the text, and
  -- one that does has left the lexer in `stateDefault`.
  pub record Round (lex : Lex D) (r : Step D) : Type 0 where
    pub halts : r ≢ fault out_of_fuel
    pub moves : (o : Option (Token D)) (l : Lex D) → r ≡ ok (o, l) → Moved lex l
    pub returns : (t : Token D) (l : Lex D) → r ≡ ok (some t, l) → l.state ≡ State.default
    pub closer :
        (l : Lex D) → r ≡ ok (none, l) → 2 * lex.ptr + stage l.state < 2 * l.ptr + stage lex.state
