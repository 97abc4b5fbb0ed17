-- ===== src/Js/Conversion.antt =====
-- libs/js/conversion.c, but for the texts of numbers. The four constants of booleans and numbers that
-- `js_init` makes are those values themselves; a function that returns one kind of value returns what
-- it holds.
pub mod Division
pub mod Text
use saki_os.Base.{
  ℕ, ◌%◌, ◌^◌, Bool, true, false, not, ◌||◌, List, [], ◌∷◌, Option, none, some, ◌==◌, if◌then◌else◌,
  Result, ok, fault, assertion, length, ◌>>=◌,
}
use saki_os.Js.Conversion.Text.{number_text}
use saki_os.Js.Data.{Data}
use saki_os.Js.Float.{Float}

-- the strings of `js_init` of libs/js/type.c
abbrev pub undef_str : List ℕ
undef_str = b'u' ∷ b'n' ∷ b'd' ∷ b'e' ∷ b'f' ∷ b'i' ∷ b'n' ∷ b'e' ∷ b'd' ∷ []

abbrev pub null_str : List ℕ
null_str = b'n' ∷ b'u' ∷ b'l' ∷ b'l' ∷ []

abbrev pub true_str : List ℕ
true_str = b't' ∷ b'r' ∷ b'u' ∷ b'e' ∷ []

abbrev pub false_str : List ℕ
false_str = b'f' ∷ b'a' ∷ b'l' ∷ b's' ∷ b'e' ∷ []

module _ {D : Type 0} where
  abbrev pub js_to_primitive : Data D → Result (Data D)
  js_to_primitive Data.undefined = ok Data.undefined
  js_to_primitive Data.null = ok Data.null
  js_to_primitive (Data.boolean b) = ok (Data.boolean b)
  js_to_primitive (Data.number d) = ok (Data.number d)
  js_to_primitive (Data.string s) = ok (Data.string s)
  js_to_primitive value = fault assertion

  abbrev pub js_check_object_coercible : Data D → Result (Unit {0})
  js_check_object_coercible Data.undefined = fault assertion
  js_check_object_coercible Data.null = fault assertion
  js_check_object_coercible value = ok tt

  module _ (float : Float D) where
    abbrev pub js_to_boolean : Data D → Result Bool
    js_to_boolean Data.undefined = ok false
    js_to_boolean Data.null = ok false
    js_to_boolean (Data.boolean b) = ok b
    js_to_boolean (Data.number d) =
        if float.equal d (float.of_int 0) || float.isnan d then ok false else ok true
    js_to_boolean (Data.string s) = ok (not (length s == 0))
    js_to_boolean (Data.object o) = ok true
    js_to_boolean value = fault assertion

    abbrev pub js_to_number : Data D → Result D
    js_to_number Data.undefined = ok float.nan
    js_to_number Data.null = ok (float.of_int 0)
    js_to_number (Data.boolean true) = ok (float.of_int 1)
    js_to_number (Data.boolean false) = ok (float.of_int 0)
    js_to_number (Data.number d) = ok d
    js_to_number value = fault assertion

    -- `value > 0` is a test of the pointer, which holds.
    abbrev pub int32_of : D → ℕ
    int32_of number =
        if float.isnan number || float.isinf number || float.equal number (float.of_int 0)
        then 0
        else float.to_int32 (float.mul (float.of_int 1) (float.floor (float.fabs number)))

    abbrev pub js_to_int32 : Data D → Result ℕ
    js_to_int32 value = do number ← js_to_number value; ok (int32_of number)

    abbrev pub js_to_uint32 : Data D → Result ℕ
    js_to_uint32 value = js_to_int32 value

    -- an `int16_t`, as its 16-bit word
    abbrev pub js_to_int16 : Data D → Result ℕ
    js_to_int16 value = do word ← js_to_int32 value; ok (word % 2 ^ 16)

    unfoldable pub js_to_string : Data D → Result (List ℕ)
    unfolding number_text
    js_to_string Data.undefined = ok undef_str
    js_to_string Data.null = ok null_str
    js_to_string (Data.boolean true) = ok true_str
    js_to_string (Data.boolean false) = ok false_str
    js_to_string (Data.number d) = number_text float d
    js_to_string (Data.string s) = ok s
    js_to_string value = fault assertion
