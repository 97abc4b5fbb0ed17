-- ===== src/Format/Vsprintf.antt =====
-- libs/lib-format/format.c: `vsprintf` and `sprintf`. `m` is the memory that holds the string
-- arguments, and `limit` the fuel of `strlen`; each argument is taken as a 32-bit word, and `va_arg` behind
-- the last one is the fault `invalid`. `%n` stores the difference of a pointer into `buf` and the
-- unused array `tmp`, which C leaves undefined: the fault `invalid`.
use saki_os.Base.{
  ℕ, zero, suc, ◌+◌, ◌-◌, ◌*◌, ◌%◌, ◌^◌, ℤ, pos, negsuc, Bool, true, ◌&&◌, ◌||◌, Option, none, some,
  List, [], ◌∷◌, ◌++◌, ◌==◌, ltb, leb, if◌then◌else◌, Result, ok, fault, invalid, out_of_fuel,
  ◌>>=◌, length,
}
use saki_os.CString.{Memory, store, strlen, strnlen}
use saki_os.Format.{Flags, no_flags, room, pad}
use saki_os.Format.Itoa.{itoa}

abbrev pub is_digit : ℕ → Bool
is_digit c = leb b'0' c && leb c b'9'

-- the cases of the `switch` over the flags
abbrev pub set_flag : ℕ → Flags → Option Flags
set_flag c flags =
    if c == b'-'
    then some (record flags { left = true })
    else if c == b'+'
    then some (record flags { plus = true })
    else if c == b' '
    then some (record flags { space = true })
    else if c == b'#'
    then some (record flags { special = true })
    else if c == b'0'
    then some (record flags { zeropad = true })
    else none

-- The loop over the flags, and the format behind them.
unfoldable pub read_flags : List ℕ → Flags → Flags × List ℕ
read_flags [] flags = (flags, [])
read_flags (c ∷ fmt) flags = elim (set_flag c flags) [
  | none ↦ (flags, c ∷ fmt)
  | some flags ↦ read_flags fmt flags
]

-- the digits of the field width
unfoldable pub read_digits : List ℕ → ℕ → ℕ × List ℕ
read_digits [] width = (width, [])
read_digits (c ∷ fmt) width =
    if is_digit c then read_digits fmt (width * 10 + (c - b'0')) else (width, c ∷ fmt)

-- `va_arg(args, int32_t)`, and the arguments behind it
abbrev pub va_arg : List ℕ → Result (ℕ × List ℕ)
va_arg [] = fault invalid
va_arg (arg ∷ args) = ok (arg % 2 ^ 32, args)

-- the `int32_t` of a word
abbrev pub as_int : ℕ → ℤ
as_int w = if ltb w (2 ^ 31) then pos w else negsuc (2 ^ 32 - 1 - w)

-- `field_width = -field_width; flags |= LEFT;` of a width below 0
abbrev pub star_width : Flags → ℤ → Flags × ℤ
star_width flags (pos width) = (flags, pos width)
star_width flags (negsuc n) = (record flags { left = true }, pos (suc n))

abbrev pub Remaining : Type 0
Remaining = List ℕ × List ℕ

unfoldable pub read_width : Flags → List ℕ → List ℕ → Result ((Flags × ℤ) × Remaining)
unfolding read_digits
read_width flags [] args = ok ((flags, negsuc 0), ([], args))
read_width flags (c ∷ fmt) args =
    if is_digit c
    then (let (width, fmt) = read_digits fmt (c - b'0') in ok ((flags, pos width), (fmt, args)))
    else if c == b'*'
    then (do (arg, args) ← va_arg args; ok (star_width flags (as_int arg), (fmt, args)))
    else ok ((flags, negsuc 0), (c ∷ fmt, args))

-- `if (precision < 0) precision = 0;`
abbrev pub at_least_zero : ℤ → ℤ
at_least_zero (pos n) = pos n
at_least_zero (negsuc _) = pos 0

-- behind the `.`: one digit, or `*`
unfoldable pub read_after_point : List ℕ → List ℕ → Result (ℤ × Remaining)
read_after_point [] args = ok (pos 0, ([], args))
read_after_point (c ∷ fmt) args =
    if is_digit c
    then ok (pos (c - b'0'), (fmt, args))
    else if c == b'*'
    then (do (arg, args) ← va_arg args; ok (at_least_zero (as_int arg), (fmt, args)))
    else ok (pos 0, (c ∷ fmt, args))

unfoldable pub read_precision : List ℕ → List ℕ → Result (ℤ × Remaining)
unfolding read_after_point
read_precision [] args = ok (negsuc 0, ([], args))
read_precision (c ∷ fmt) args =
    if c == b'.' then read_after_point fmt args else ok (negsuc 0, (c ∷ fmt, args))

unfoldable pub skip_qualifier : List ℕ → List ℕ
skip_qualifier [] = []
skip_qualifier (c ∷ fmt) = if c == b'h' || c == b'l' || c == b'L' then fmt else c ∷ fmt

-- `memcpy(p, str, len)`: the characters copied
unfoldable pub read_string : Memory → ℕ → ℕ → List ℕ
read_string m str zero = []
read_string m str (suc len) = m str ∷ read_string m (str + 1) len

-- `precision >= 0 ? strnlen(str, precision) : strlen(str)`
abbrev pub string_length : ℕ → Memory → ℤ → ℕ → Option ℕ
string_length limit m (pos precision) str = strnlen limit m str precision
string_length limit m (negsuc _) str = strlen limit m str

abbrev pub length_or_fault : Option ℕ → Result ℕ
length_or_fault none = fault out_of_fuel
length_or_fault (some len) = ok len

-- Where a conversion is padded with blanks to `width`: in front, or behind with LEFT.
abbrev pub justify : Flags → ℤ → List ℕ → List ℕ
justify flags width text =
    if flags.left
    then pad (room width (length text)) b' ' text
    else pad (room width (length text)) b' ' [] ++ text

-- An argument that is written as a number
abbrev pub number : ℕ → ℤ → Flags → List ℕ → Result (List ℕ × List ℕ)
number radix width flags args = do
  (arg, args) ← va_arg args
  text ← itoa arg radix width flags
  ok (text, args)

-- The cases of the last `switch`: what they write and the arguments left; `none` is `default`.
unfoldable pub convert : ℕ → Memory → ℕ → Flags → ℤ → ℤ → List ℕ → Result (Option (List ℕ × List ℕ))
unfolding pad strlen strnlen read_string
convert limit m c flags width precision args =
    if c == b'x'
    then (do r ← number 16 width (record flags { small = true }) args; ok (some r))
    else if c == b'X'
    then (do r ← number 16 width flags args; ok (some r))
    else if c == b'd' || c == b'i'
    then (do r ← number 10 width (record flags { sign = true }) args; ok (some r))
    else if c == b'u'
    then (do r ← number 10 width flags args; ok (some r))
    else if c == b'o'
    then (do r ← number 8 width flags args; ok (some r))
    else if c == b'n'
    then fault invalid
    else if c == b'p'
    then (do r ← number 16 width flags args; ok (some r))
    else if c == b'c'
    then (do (arg, args) ← va_arg args; ok (some (justify flags width (arg % 2 ^ 8 ∷ []), args)))
    else if c == b's'
    then (do
      (str, args) ← va_arg args
      len ← length_or_fault (string_length limit m precision str)
      ok (some (justify flags width (read_string m str len), args)))
    else if c == b'%'
    then ok (some (b'%' ∷ [], args))
    else ok none

-- `default` writes `%` and goes on at the same character.
abbrev pub converted : ℕ → List ℕ → List ℕ → Option (List ℕ × List ℕ) → List ℕ × Remaining
converted c fmt args none = (b'%' ∷ [], (c ∷ fmt, args))
converted c fmt args (some (text, args')) = (text, (fmt, args'))

-- The switch at the character behind the qualifier, which may be the NUL
unfoldable pub switch : ℕ → Memory → Flags → ℤ → ℤ → List ℕ → List ℕ → Result (List ℕ × Remaining)
unfolding convert
switch limit m flags width precision [] args = ok (b'%' ∷ [], ([], args))
switch limit m flags width precision (c ∷ fmt) args = do
  r ← convert limit m c flags width precision args
  ok (converted c fmt args r)

-- what stands behind a `%`
unfoldable pub directive : ℕ → Memory → List ℕ → List ℕ → Result (List ℕ × Remaining)
unfolding read_flags read_width read_precision skip_qualifier switch
directive limit m fmt args = do
  let (flags, fmt) = read_flags fmt no_flags
  ((flags, width), (fmt, args)) ← read_width flags fmt args
  (precision, (fmt, args)) ← read_precision fmt args
  switch limit m flags width precision (skip_qualifier fmt) args

-- one round of `for (p = buf; *fmt != 0; fmt++)`
unfoldable pub round : ℕ → Memory → ℕ → List ℕ → List ℕ → Result (List ℕ × Remaining)
unfolding directive
round limit m c fmt args =
    if c == b'%' then directive limit m fmt args else ok (c ∷ [], (fmt, args))

unfoldable pub vsprintf_loop : ℕ → ℕ → Memory → List ℕ → List ℕ → List ℕ → Result (List ℕ)
vsprintf_loop zero limit m fmt args out = fault out_of_fuel
vsprintf_loop (suc fuel) limit m [] args out = ok out
vsprintf_loop (suc fuel) limit m (c ∷ fmt) args out = do
  (text, (fmt, args)) ← round limit m c fmt args
  vsprintf_loop fuel limit m fmt args (out ++ text)

-- The text written; the value returned is its length.
unfoldable pub vsprintf : ℕ → Memory → List ℕ → List ℕ → Result (List ℕ)
unfolding vsprintf_loop round
vsprintf limit m fmt args = vsprintf_loop (suc (length fmt)) limit m fmt args []

-- `sprintf(dest, fmt, ...)`: the text at `dest` with its NUL, which is stored twice. `dest` does not
-- overlap the arguments.
unfoldable pub write_text : List ℕ → ℕ → Memory → Memory
write_text [] p m = store m p 0
write_text (c ∷ text) p m = write_text text (p + 1) (store m p c)

unfoldable pub sprintf : ℕ → ℕ → List ℕ → List ℕ → Memory → Result (ℕ × Memory)
unfolding vsprintf store write_text
sprintf limit dest fmt args m = do
  text ← vsprintf limit m fmt args
  ok (length text, store (write_text text dest m) (dest + length text) 0)
