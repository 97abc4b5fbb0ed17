-- ===== src/Format.antt =====
-- libs/lib-format/format.c. Text is a list of characters: a format or a string argument without its
-- NUL, and what is written from the pointer that a function starts at. `size_t` has 32 bits. A flag
-- is a field of `Flags`, and an `int` width is an integer; a width that overflows `int` is undefined
-- in C and not wrapped here.
pub mod Itoa
pub mod Vsprintf
mod Swaps
pub mod Layout
pub mod Digits
pub mod RoundTrip
mod Rests
pub mod Halts
pub mod Renders
use saki_os.Base.{ℕ, ℤ, pos, negsuc, Bool, false, List, [], ◌∷◌, zero, suc, ◌++◌, ◌-◌}

pub record Flags : Type 0 where
  pub left : Bool
  pub plus : Bool
  pub space : Bool
  pub special : Bool
  pub zeropad : Bool
  pub sign : Bool
  pub small : Bool

abbrev pub no_flags : Flags
no_flags = record {
  left = false;
  plus = false;
  space = false;
  special = false;
  zeropad = false;
  sign = false;
  small = false;
}

-- the rounds of `while (i < width)`
abbrev pub room : ℤ → ℕ → ℕ
room (pos width) i = width - i
room (negsuc _) i = 0

-- `while (i < width) str[i++] = c;`
unfoldable pub pad : ℕ → ℕ → List ℕ → List ℕ
pad zero c str = str
pad (suc rounds) c str = pad rounds c (str ++ (c ∷ []))
