-- ===== src/Js/Eval/Operators.antt =====
-- `doBinaryOp` of libs/js/internal.c.
use Prim.Native.Nat.{bit_and, bit_or, bit_xor}
use saki_os.Base.{
  ℕ, ◌-◌, ◌*◌, ◌/◌, ◌%◌, ◌^◌, ◌||◌, ◌++◌, ◌==◌, ltb, if◌then◌else◌, Result, ok, fault, assertion,
  ◌>>=◌,
}
use saki_os.Js.Conversion.{js_to_primitive, js_to_number, js_to_string, js_to_int32}
use saki_os.Js.Data.{Data, type}
use saki_os.Js.Float.{Float}
use saki_os.Js.Node.{BinaryNodeType}

-- `lnum << count`, `lnum >> count` of a signed and of an unsigned `lnum`
abbrev pub shift_left : ℕ → ℕ → ℕ
shift_left lnum count = lnum * 2 ^ count % 2 ^ 32

abbrev pub shift_right : ℕ → ℕ → ℕ
shift_right lnum count =
    if ltb lnum (2 ^ 31) then lnum / 2 ^ count else 2 ^ 32 - 1 - (2 ^ 32 - 1 - lnum) / 2 ^ count

abbrev pub ushift_right : ℕ → ℕ → ℕ
ushift_right lnum count = lnum / 2 ^ count

module _ {D : Type 0} (float : Float D) where
  abbrev pub on_numbers : (D → D → D) → Data D → Data D → Result (Data D)
  on_numbers op lval rval = do
    left_num ← js_to_number float lval
    right_num ← js_to_number float rval
    ok (Data.number (op left_num right_num))

  abbrev pub on_words : (ℕ → ℕ → D) → Data D → Data D → Result (Data D)
  on_words op lval rval = do
    lnum ← js_to_int32 float lval
    rnum ← js_to_int32 float rval
    ok (Data.number (op lnum rnum))

  unfoldable pub add_values : Data D → Data D → Result (Data D)
  unfolding js_to_string
  add_values lval rval = do
    lprim ← js_to_primitive lval
    rprim ← js_to_primitive rval
    if type lprim == 3 || type rprim == 3
        then (do
          lstr ← js_to_string float lprim
          rstr ← js_to_string float rprim
          ok (Data.string (lstr ++ rstr)))
        else on_numbers float.add lprim rprim

  -- `js_toUint32` gives the word of `js_toInt32`.
  unfoldable pub do_binary_op : BinaryNodeType → Data D → Data D → Result (Data D)
  unfolding add_values
  do_binary_op BinaryNodeType.mul_node = on_numbers float.mul
  do_binary_op BinaryNodeType.div_node = on_numbers float.div
  do_binary_op BinaryNodeType.mod_node = on_numbers float.fmod
  do_binary_op BinaryNodeType.add_node = add_values
  do_binary_op BinaryNodeType.sub_node = on_numbers float.sub
  do_binary_op BinaryNodeType.shl_node =
      on_words (λ l r. float.of_int32 (shift_left l (bit_and r 0x1F)))
  do_binary_op BinaryNodeType.shr_node =
      on_words (λ l r. float.of_int32 (shift_right l (bit_and r 0x1F)))
  do_binary_op BinaryNodeType.ushr_node =
      on_words (λ l r. float.of_uint32 (ushift_right l (bit_and r 0x1F)))
  do_binary_op BinaryNodeType.and_node = on_words (λ l r. float.of_int32 (bit_and l r))
  do_binary_op BinaryNodeType.xor_node = on_words (λ l r. float.of_int32 (bit_xor l r))
  do_binary_op BinaryNodeType.or_node = on_words (λ l r. float.of_int32 (bit_or l r))
  do_binary_op type = λ lval rval. fault assertion
