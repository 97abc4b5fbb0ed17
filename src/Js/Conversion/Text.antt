-- ===== src/Js/Conversion/Text.antt =====
-- The texts of numbers in libs/js/conversion.c: `sepFloatNum`, `countLen` and the branch of
-- `js_toString` for numbers. A character of the allocated string is `none` until it is written.
pub mod Layout
use saki_os.Base.{
  ℕ, zero, suc, ◌+◌, ◌-◌, ◌*◌, ◌/◌, ◌%◌, ◌^◌, ℤ, pos, negsuc, Bool, true, false, not, ◌&&◌, ◌||◌,
  List, [], ◌∷◌, Option, none, some, ◌==◌, ltb, leb, if◌then◌else◌, Result, ok, fault, invalid,
  ◌>>=◌, length,
}
use saki_os.Js.Float.{Float}

-- the strings of `js_init` of libs/js/type.c
abbrev pub nan_str : List ℕ
nan_str = b'N' ∷ b'a' ∷ b'N' ∷ []

abbrev pub zero_str : List ℕ
zero_str = b'0' ∷ []

abbrev pub inf_str : List ℕ
inf_str = b'I' ∷ b'n' ∷ b'f' ∷ b'i' ∷ b'n' ∷ b'i' ∷ b't' ∷ b'y' ∷ []

-- `div64` where `__X86_64__` is defined: the quotient, which it stores, and the remainder
abbrev pub div64 : ℕ → ℕ → ℕ × ℕ
div64 num base = (num / base, num % base)

abbrev pub count_len : ℕ → ℕ
count_len n = if leb 1000 n then 4 else if leb 100 n then 3 else if leb 10 n then 2 else 1

abbrev pub Buffer : Type 0
Buffer = List (Option ℕ)

-- the memory that `malloc` returns
unfoldable pub malloc : ℕ → Buffer
malloc zero = []
malloc (suc len) = none ∷ malloc len

-- `str[i] = c`
unfoldable pub write : Buffer → ℕ → ℕ → Result Buffer
write [] i c = fault invalid
write (x ∷ str) zero c = ok (some c ∷ str)
write (x ∷ str) (suc i) c = do rest ← write str i c; ok (x ∷ rest)

-- the string of a buffer that is written in full
unfoldable pub js_new_string : Buffer → Result (List ℕ)
js_new_string [] = ok []
js_new_string (none ∷ str) = fault invalid
js_new_string (some c ∷ str) = do rest ← js_new_string str; ok (c ∷ rest)

-- `for (int i = count - 1; i >= 0; i--) str[at + i] = '0' + div64(&S, 10);`
unfoldable pub write_digits : Buffer → ℕ → ℕ → ℕ → Result (Buffer × ℕ)
unfolding write
write_digits str at zero S = ok (str, S)
write_digits str at (suc i) S = do
  let (quotient, remainder) = div64 S 10
  str ← write str (at + i) (b'0' + remainder)
  write_digits str at i quotient

-- `for (int i = 0; i < count; i++) str[at + i] = '0';`
unfoldable pub write_zeros : Buffer → ℕ → ℕ → Result Buffer
unfolding write
write_zeros str at zero = ok str
write_zeros str at (suc count) = do str ← write str at b'0'; write_zeros str (at + 1) count

-- The sign, behind all else: `if (neg) str[0] = '-'`
abbrev pub finish : ℕ → Buffer → Result (List ℕ)
finish zero str = js_new_string str
finish (suc _) str = do str ← write str 0 b'-'; js_new_string str

-- The branches of `js_toString` by the place `N` of the point; `neg` is 0 or 1.
unfoldable pub text_integer : ℕ → ℕ → ℕ → ℕ → Result (List ℕ)
unfolding malloc write_digits write_zeros js_new_string
text_integer neg S N K = do
  (str, _) ← write_digits (malloc (N + neg)) neg K S
  str ← write_zeros str (neg + K) (N - K)
  finish neg str

unfoldable pub text_decimal : ℕ → ℕ → ℕ → ℕ → Result (List ℕ)
unfolding malloc write write_digits js_new_string
text_decimal neg S N K = do
  str ← write (malloc (K + 1 + neg)) (neg + N) b'.'
  (str, S) ← write_digits str (neg + N + 1) (K - N) S
  (str, _) ← write_digits str neg N S
  finish neg str

-- Where `N` is `-gap`. A length below 0 and a write in front of the string are faults.
unfoldable pub write_digits_before : Buffer → ℕ → ℕ → ℕ → ℕ → Result Buffer
unfolding write
write_digits_before str at gap zero S = ok str
write_digits_before str at gap (suc i) S = do
  let (quotient, remainder) = div64 S 10
  str ← if ltb (at + i) gap then fault invalid else write str (at + i - gap) (b'0' + remainder)
  write_digits_before str at gap i quotient

unfoldable pub text_fraction : ℕ → ℕ → ℕ → ℕ → Result (List ℕ)
unfolding malloc write write_digits_before js_new_string
text_fraction neg S gap K = if ltb (K + 2 + neg) gap then fault invalid else (do
  str ← write (malloc (K + 2 + neg - gap)) neg b'0'
  str ← write str (neg + 1) b'.'
  str ← write_digits_before str (neg + 2) gap K S
  finish neg str)

-- `n_neg` and the new `N` of the last two branches
abbrev pub exponent : ℤ → Bool × ℕ
exponent (pos zero) = (true, 1)
exponent (pos (suc n)) = (false, n)
exponent (negsuc n) = (true, n + 2)

unfoldable pub text_exponent : ℕ → ℕ → ℤ → ℕ → Result (List ℕ)
unfolding malloc write write_digits js_new_string
text_exponent neg S N K = do
  let (n_neg, e) = exponent N
  let exp_len = count_len e
  let sign = if n_neg then b'-' else b'+'
  if K == 1
      then (do
        str ← write (malloc (exp_len + neg + 3)) neg ((b'0' + S % 2 ^ 16) % 2 ^ 16)
        str ← write str (neg + 1) b'e'
        str ← write str (neg + 2) sign
        (str, _) ← write_digits str (neg + 3) exp_len e
        finish neg str)
      else (do
        str ← write (malloc (exp_len + neg + K + 3)) (neg + 1) b'.'
        (str, S) ← write_digits str (neg + 2) (K - 1) S
        str ← write str neg ((b'0' + S % 2 ^ 16) % 2 ^ 16)
        str ← write str (neg + K + 1) b'e'
        str ← write str (neg + K + 2) sign
        (str, _) ← write_digits str (neg + K + 3) exp_len e
        finish neg str)

-- behind `sepFloatNum`
unfoldable pub layout : ℕ → ℕ → ℤ → ℕ → Result (List ℕ)
unfolding text_integer text_decimal text_fraction text_exponent
layout neg S (pos N) K =
    if leb K N && leb N 21
    then text_integer neg S N K
    else if ltb 0 N && leb N 21
    then text_decimal neg S N K
    else if N == 0
    then text_fraction neg S 0 K
    else text_exponent neg S (pos N) K
layout neg S (negsuc n) K =
    if ltb (n + 1) 6 then text_fraction neg S (n + 1) K else text_exponent neg S (negsuc n) K

-- `N + 1`
abbrev pub increment : ℤ → ℤ
increment (pos n) = pos (n + 1)
increment (negsuc zero) = pos 0
increment (negsuc (suc n)) = negsuc n

module _ {D : Type 0} (float : Float D) where
  -- the loop of `sepFloatNum`, of at most `left` rounds: `val`, `S` and `K` behind it
  unfoldable pub sep_loop : ℕ → D → ℕ → ℕ → D × ℕ × ℕ
  sep_loop zero val S K = (val, S, K)
  sep_loop (suc left) val S K =
      let val₁ = float.mul val (float.of_int 10) in
      let n = float.to_uint64 val₁ in
      let S₁ =
        float.to_uint64
          (float.add (float.mul (float.of_int S) (float.of_int 10)) (float.of_int n)) in
      let rest = sep_loop left (float.sub val₁ (float.of_int n)) S₁ (K + 1) in
      if float.less float.epsilon val && float.less val (float.sub (float.of_int 1) float.epsilon)
      then rest
      else (val, S, K)

  -- `S`, `N` and `K`
  unfoldable pub sep_float_num : D → ℕ × ℤ × ℕ
  unfolding sep_loop
  sep_float_num val =
      let N = increment (float.to_int16 (float.floor (float.log10 val))) in
      let scaled : D = elim N [
        | pos zero ↦ float.mul val (float.pow (float.of_int 10) 0)
        | pos (suc n) ↦ float.div val (float.pow (float.of_int 10) (suc n))
        | negsuc n ↦ float.mul val (float.pow (float.of_int 10) (n + 1))
      ] in
      let (rest, S, K) = sep_loop 20 scaled 0 0 in
      if float.less_eq (float.sub (float.of_int 1) float.epsilon) rest
      then ((S + 1) % 2 ^ 64, N, (if K == 0 then 1 else K))
      else (S, N, K)

  unfoldable pub number_text : D → Result (List ℕ)
  unfolding sep_float_num layout
  number_text d =
      if float.isnan d
      then ok nan_str
      else if float.equal d (float.of_int 0)
      then ok zero_str
      else if float.isinf d
      then (if float.less (float.of_int 0) d then ok inf_str else ok (b'-' ∷ inf_str))
      else let neg = float.less d (float.of_int 0) in
        let (S, N, K) = sep_float_num (if neg then float.neg d else d) in
        layout (if neg then 1 else 0) S N K
