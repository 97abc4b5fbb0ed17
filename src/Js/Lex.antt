-- ===== src/Js/Lex.antt =====
-- libs/js/lex.c and `struct struct_lex` of include/js/js.h. A state function is a value of `State`;
-- the members of the union `data` are fields of their own, since a state uses one of them. The
-- character categories of libs/unicode/type.inc and the arithmetic of `double` are the parameter
-- `Env`.
pub mod Keywords
pub mod Default
pub mod States
pub mod Termination
use saki_os.Base.{
  ℕ, zero, suc, ◌+◌, ◌-◌, ◌*◌, ◌/◌, ◌%◌, ◌^◌, Bool, true, false, ◌&&◌, ◌||◌, List, [], ◌∷◌, ◌++◌,
  Option, none, some, ◌==◌, ltb, leb, if◌then◌else◌, length, get_or, Result, ok, fault, assertion,
  invalid,
}
use saki_os.Js.Token.{Token, Value}

pub record Env (D : Type 0) : Type 0 where
  pub get_type : ℕ → ℕ
  pub of_int : ℕ → D
  pub mul : D → D → D
  pub add : D → D → D

pub data State : Type 0 where
  default single_line_comment multi_line_comment identifier_part : State
  hex_integer_literal oct_integer_literal double_string single_string : State

pub record Lex (D : Type 0) : Type 0 where
  pub content : List ℕ
  pub ptr : ℕ
  pub state : State
  pub regexp : Bool
  pub strict_mode : Bool
  pub line_before : Bool
  pub parse_id : Bool
  pub buffer : List ℕ
  pub size : ℕ
  pub number : D

-- what a state function returns, `none` for NULL, and the lexer after it
abbrev pub Step : Type 0 → Type 0
Step D = Result (Option (Token D) × Lex D)

module _ {D : Type 0} where
  abbrev pub lookahead : Lex D → ℕ
  lookahead lex = if lex.ptr == length lex.content then 0xFFFF else get_or lex.content lex.ptr 0

  -- the effect of `next`; what it returns is `lookahead`
  abbrev pub advance : Lex D → Lex D
  advance lex = if lex.ptr == length lex.content then lex else record lex { ptr = lex.ptr + 1 }

  unfoldable pub create_buffer : Lex D → Lex D
  create_buffer lex = record lex { buffer = []; size = 10 }

  -- A write behind the allocated units is the fault `invalid`; the number of bytes that `realloc` is
  -- given has 32 bits.
  unfoldable pub append_to_buffer : ℕ → Lex D → Result (Lex D)
  append_to_buffer ch lex =
      let size =
        if length lex.buffer == lex.size
        then lex.size * (lex.size * 3 % 2 ^ 32 / 2 + 1) % 2 ^ 32
        else lex.size in
      if ltb (length lex.buffer) (size * 2 % 2 ^ 32 / 2)
      then ok (record lex { buffer = lex.buffer ++ ch ∷ []; size = size })
      else fault invalid

-- the line terminators LF, CR, LS and PS
abbrev pub is_line_end : ℕ → Bool
is_line_end c = c == 0xD || c == 0xA || c == 0x2028 || c == 0x2029

-- UPPERCASE_LETTER to OTHER_LETTER, and LETTER_NUMBER
abbrev pub is_letter : ℕ → Bool
is_letter t = leb 1 t && leb t 5 || t == 10
