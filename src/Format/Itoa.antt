-- ===== src/Format/Itoa.antt =====
-- libs/lib-format/format.c: `itoa` and `atoi`. `num` and the result of `atoi` are `int32_t`, as
-- their 32-bit words.
use saki_os.Base.{
  ℕ, zero, suc, ◌+◌, ◌-◌, ◌*◌, ◌/◌, ◌%◌, ◌^◌, ℤ, Bool, ◌&&◌, ◌||◌, List, [], ◌∷◌, ◌++◌, ◌==◌, leb,
  if◌then◌else◌, Result, ok, fault, out_of_fuel, ◌>>=◌, length, get_or, set,
}
use saki_os.Format.{Flags, room, pad}

abbrev pub decimals : List ℕ
decimals = b'0' ∷ b'1' ∷ b'2' ∷ b'3' ∷ b'4' ∷ b'5' ∷ b'6' ∷ b'7' ∷ b'8' ∷ b'9' ∷ []

abbrev pub small_letters : List ℕ
small_letters =
    b'a' ∷ b'b' ∷ b'c' ∷ b'd' ∷ b'e' ∷ b'f' ∷ b'g' ∷ b'h' ∷ b'i' ∷ b'j' ∷ b'k' ∷ b'l' ∷ b'm' ∷ b'n'
    ∷ b'o' ∷ b'p' ∷ b'q' ∷ b'r' ∷ b's' ∷ b't' ∷ b'u' ∷ b'v' ∷ b'w' ∷ b'x' ∷ b'y' ∷ b'z' ∷ []

abbrev pub capitals : List ℕ
capitals =
    b'A' ∷ b'B' ∷ b'C' ∷ b'D' ∷ b'E' ∷ b'F' ∷ b'G' ∷ b'H' ∷ b'I' ∷ b'J' ∷ b'K' ∷ b'L' ∷ b'M' ∷ b'N'
    ∷ b'O' ∷ b'P' ∷ b'Q' ∷ b'R' ∷ b'S' ∷ b'T' ∷ b'U' ∷ b'V' ∷ b'W' ∷ b'X' ∷ b'Y' ∷ b'Z' ∷ []

-- `index[d]`: the table that the flag SMALL chooses, with its NUL behind the last letter
unfoldable pub index : Bool → ℕ → ℕ
index small d = get_or (if small then decimals ++ small_letters else decimals ++ capitals) d 0

-- `(type & (SIGN | PLUS)) && num < 0`
abbrev pub is_minus : ℕ → Flags → Bool
is_minus num type = (type.sign || type.plus) && leb (2 ^ 31) num

-- the sign, and `unum`
abbrev pub sign_of : ℕ → Flags → List ℕ
sign_of num type = if is_minus num type then b'-' ∷ [] else if type.plus then b'+' ∷ [] else []

abbrev pub magnitude : ℕ → Flags → ℕ
magnitude num type = if is_minus num type then 2 ^ 32 - num else num

-- what SPECIAL puts in front of the digits
abbrev pub prefix_of : ℕ → Flags → List ℕ
prefix_of radix type =
    if type.special
    then if radix == 8
      then b'0' ∷ []
      else if radix == 16
      then b'0' ∷ (if type.small then b'x' else b'X') ∷ []
      else []
    else []

-- `do { str[i++] = index[unum % radix]; unum /= radix; } while (unum);`
unfoldable pub digit_loop : ℕ → Bool → ℕ → ℕ → Result (List ℕ)
digit_loop zero small radix unum = fault out_of_fuel
digit_loop (suc fuel) small radix unum = do
  let rest = digit_loop fuel small radix (unum / radix)
  digits ← if unum / radix == 0 then ok [] else rest
  ok (index small (unum % radix) ∷ digits)

-- `k`, where the reversed part starts
abbrev pub start_of : List ℕ → ℕ → Flags → ℕ
start_of str radix type =
    (if get_or str 0 0 == b'-' || get_or str 0 0 == b'+' then 1 else 0)
    + (if type.special then if radix == 8 then 1 else if radix == 16 then 2 else 0 else 0)

-- `for (j = k; j <= last / 2; j++)` swaps `str[j]` and `str[last - j]`, where `last` is `i - 1 + k`.
unfoldable pub swap_loop : ℕ → ℕ → ℕ → List ℕ → List ℕ
swap_loop zero j last str = str
swap_loop (suc rounds) j last str =
    swap_loop rounds (j + 1) last
      (set (set str j (get_or str (last - j) 0)) (last - j) (get_or str j 0))

abbrev pub reverse_from : ℕ → List ℕ → List ℕ
reverse_from k str = swap_loop ((length str + k - 1) / 2 + 1 - k) k (length str + k - 1) str

unfoldable pub itoa : ℕ → ℕ → ℤ → Flags → Result (List ℕ)
unfolding pad digit_loop swap_loop
itoa num radix width type = do
  digits ← digit_loop 32 type.small radix (magnitude num type)
  let str = sign_of num type ++ prefix_of radix type ++ digits
  let k = start_of str radix type
  let str =
      if type.left
      then str
      else pad (room width (length str)) (if type.zeropad then b'0' else b' ') str
  let str = reverse_from k str
  ok (pad (room width (length str)) b' ' str)

-- `while (*p >= '0' && *p <= '9') res = res * 10 + (*p++ - '0');`
unfoldable pub atoi_loop : List ℕ → ℕ → ℕ
atoi_loop [] res = res
atoi_loop (c ∷ p) res =
    if leb b'0' c && leb c b'9' then atoi_loop p ((res * 10 + (c - b'0')) % 2 ^ 32) else res

-- the word of `-res`
abbrev pub negate : ℕ → ℕ
negate res = (2 ^ 32 - res) % 2 ^ 32

unfoldable pub atoi : List ℕ → ℕ
unfolding atoi_loop
atoi [] = 0
atoi (c ∷ p) =
    if c == b'-'
    then negate (atoi_loop p 0)
    else if c == b'+'
    then atoi_loop p 0
    else atoi_loop (c ∷ p) 0
