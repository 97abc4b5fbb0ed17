-- ===== src/Tests/Formats.antt =====
-- Runs of libs/lib-format/format.c at concrete inputs.
use saki_os.Base.{
  ℕ, ◌^◌, ◌-◌, ◌≡◌, ◌≢◌, refl, pos, negsuc, true, List, [], ◌∷◌, ◌++◌, ◌==◌, if◌then◌else◌, ok,
  fault, out_of_fuel, arith, Bool-cases, inl, inr,
}
use saki_os.CString.{Memory, strlen, strlen_loop, strnlen, strnlen_loop}
use saki_os.Format.{Flags, no_flags, pad}
use saki_os.Format.Itoa.{itoa, index, digit_loop, swap_loop, atoi}
use saki_os.Format.Vsprintf.{
  vsprintf, vsprintf_loop, round, directive, read_flags, read_digits, read_width, read_precision,
  read_after_point, skip_qualifier, switch, convert, read_string,
}
use saki_os.Format.Digits.{Numeral, digit}
use saki_os.Format.Layout.{Signed, Prefixed, negative, filled_out, itoa-laid_out}
use saki_os.Format.RoundTrip.{itoa-atoi}
use saki_os.Format.Halts.{AllTerminated, vsprintf-halts}
use saki_os.Format.Renders.{
  StringAt, Renders, vsprintf-Renders, plain, number, percent, string, done, signed,
}

abbrev minus_five : ℕ
minus_five = 2 ^ 32 - 5

abbrev signed_flags : Flags
signed_flags = record no_flags { sign = true }

abbrev hex_flags : Flags
hex_flags = record no_flags { special = true; zeropad = true; small = true }

-- "-   5" for `%5d`
itoa_padded : itoa minus_five 10 (pos 5) signed_flags ≡ ok (b'-' ∷ b' ' ∷ b' ' ∷ b' ' ∷ b'5' ∷ [])
unfolding itoa index digit_loop pad swap_loop
itoa_padded = refl

-- "0x00ff" for `%#06x`
itoa_hex : itoa 255 16 (pos 6) hex_flags ≡ ok (b'0' ∷ b'x' ∷ b'0' ∷ b'0' ∷ b'f' ∷ b'f' ∷ [])
unfolding itoa index digit_loop pad swap_loop
itoa_hex = refl

itoa-laid_out_example :
    (sign front text : List ℕ) × (n : ℕ) × Signed 255 hex_flags sign n
    × Prefixed 16 hex_flags front
    × Numeral true 16 n text
    × (itoa 255 16 (pos 6) hex_flags ≡ ok (filled_out (pos 6) hex_flags (sign ++ front) text))
itoa-laid_out_example =
    itoa-laid_out 255 16 (pos 6) hex_flags (omega arith) (omega arith) (omega arith)

itoa-atoi_example :
    (text : List ℕ) × (itoa minus_five 10 (negsuc 0) signed_flags ≡ ok text)
    × (atoi text ≡ minus_five)
itoa-atoi_example = itoa-atoi minus_five (negsuc 0) signed_flags (omega arith) refl

-- "A" at the address 0, and the empty string behind it
abbrev letter : Memory
letter a = if a == 0 then b'A' else 0

letter-AllTerminated : AllTerminated 2 letter
unfolding strlen strlen_loop
letter-AllTerminated str = elim (Bool-cases (str == 0)) [
  | inl e ↦ (1, ground (arith, e))
  | inr e ↦ (0, ground (arith, e))
]

-- "%5s%.10d%", whose last `%` the NUL follows
abbrev odd_format : List ℕ
odd_format = b'%' ∷ b'5' ∷ b's' ∷ b'%' ∷ b'.' ∷ b'1' ∷ b'0' ∷ b'd' ∷ b'%' ∷ []

vsprintf_odd :
    vsprintf 2 letter odd_format (0 ∷ 7 ∷ [])
    ≡ ok (b' ' ∷ b' ' ∷ b' ' ∷ b' ' ∷ b'A' ∷ b'%' ∷ b'0' ∷ b'd' ∷ b'%' ∷ [])
unfolding vsprintf vsprintf_loop round directive read_flags read_digits read_width read_precision
    read_after_point skip_qualifier switch convert pad strnlen strnlen_loop strlen strlen_loop
    read_string itoa index
vsprintf_odd = refl

vsprintf-halts_example : vsprintf 2 letter odd_format (0 ∷ 7 ∷ []) ≢ fault out_of_fuel
vsprintf-halts_example = vsprintf-halts 2 letter odd_format (0 ∷ 7 ∷ []) letter-AllTerminated

-- "x=%d%%%s"
abbrev plain_format : List ℕ
plain_format = b'x' ∷ b'=' ∷ b'%' ∷ b'd' ∷ b'%' ∷ b'%' ∷ b'%' ∷ b's' ∷ []

abbrev plain_text : List ℕ
plain_text = b'x' ∷ b'=' ∷ b'-' ∷ b'5' ∷ b'%' ∷ b'A' ∷ []

plain-Renders : Renders 2 letter plain_format (minus_five ∷ 0 ∷ []) plain_text
unfolding StringAt
plain-Renders = plain refl (
    plain refl (
      number signed (negative (inl refl) (omega arith)) (digit (omega arith))
        (percent (string (b'A' ∷ []) (refl, refl, refl) (omega arith) done))))

vsprintf-Renders_example : vsprintf 2 letter plain_format (minus_five ∷ 0 ∷ []) ≡ ok plain_text
vsprintf-Renders_example =
    vsprintf-Renders 2 letter plain_format (minus_five ∷ 0 ∷ []) plain_text plain-Renders
