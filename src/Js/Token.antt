-- ===== src/Js/Token.antt =====
-- The tokens of include/js/type.h and `js_allocToken` of libs/js/type.c.
use saki_os.Base.{ℕ, Bool, false, List}

-- what `value` points to: NULL, a `js_string_t` or a `js_number_t`; `D` stands for `double`
pub data Value (D : Type 0) : Type 0 where
  null : Value D
  string : List ℕ → Value D
  number : D → Value D

pub record Token (D : Type 0) : Type 0 where
  pub type : ℕ
  pub value : Value D
  pub line_before : Bool

unfoldable pub js_alloc_token : {D : Type 0} → ℕ → Token D
js_alloc_token type = record { type = type; value = Value.null; line_before = false }
