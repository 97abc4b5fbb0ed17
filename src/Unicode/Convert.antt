-- ===== src/Unicode/Convert.antt =====
-- libs/unicode/convert.c. A string is the list of its units. The position `i` of a loop is the list
-- that is left; a write to `result[len]` puts one more unit at the end of what the loop has written.
-- `malloc` is taken to succeed, as its caller asserts.
pub mod Steps
pub mod Pairs
pub mod RoundTrip
use Prim.Native.Nat.{bit_and, bit_or}
use saki_os.Base.{
  ℕ, zero, suc, ◌+◌, ◌-◌, ◌*◌, ◌/◌, ◌%◌, ◌^◌, Bool, true, false, not, ◌&&◌, List, [], ◌∷◌, ◌++◌,
  ◌==◌, ltb, leb, if◌then◌else◌, length, drop, Result, ok, fault, assertion, invalid, out_of_fuel,
  ◌>>=◌, ◌>>◌, assert,
}

-- `BIT_TEST`, `!!((num) & (1 << bit))`
pub bit_test : ℕ → ℕ → Bool
bit_test num bit = not (bit_and num (2 ^ bit) == 0)

-- `str[++i]`: the next unit and what follows it
abbrev pub read : List ℕ → Result (ℕ × List ℕ)
read [] = fault invalid
read (n ∷ s) = ok (n, s)

-- stores into `uint8_t`, `uint16_t` and `uint32_t`
abbrev pub u8 : ℕ → ℕ
u8 x = x % 2 ^ 8

abbrev pub u16 : ℕ → ℕ
u16 x = x % 2 ^ 16

abbrev pub u32 : ℕ → ℕ
u32 x = x % 2 ^ 32

-- One round of `unicode_countAsUtf16` at the byte `c`: how far `len` moves, and what is left.
pub count_utf16_step : ℕ → List ℕ → Result (ℕ × List ℕ)
count_utf16_step c s = if not (bit_test c 7) then ok (1, s) else do
  assert (bit_test c 6)
  if not (bit_test c 5)
      then ok (1, drop 1 s)
      else if not (bit_test c 4)
      then ok (1, drop 2 s)
      else do assert (not (bit_test c 3)); ok (2, drop 3 s)

-- One round of `unicode_countAsUtf8` at the unit `c`.
pub count_utf8_step : ℕ → List ℕ → Result (ℕ × List ℕ)
count_utf8_step c s =
    if ltb c 0x7F
    then ok (1, s)
    else if ltb c 0x7FF
    then ok (2, s)
    else if leb 0xD800 c && ltb c 0xDC00
    then (do (n, rest) ← read s; assert (leb 0xDC00 n && ltb c 0xE000); ok (4, rest))
    else ok (3, s)

-- One round of `unicode_toUtf16` at the byte `c`: the units written, and what is left.
pub to_utf16_step : ℕ → List ℕ → Result (List ℕ × List ℕ)
to_utf16_step c s =
    if not (bit_test c 7)
    then ok (c ∷ [], s)
    else if not (bit_test c 5)
    then (do
      (n, s) ← read s
      assert (bit_and n 0xC0 == 0x80)
      ok (u16 (bit_or (bit_and c 31 * 2 ^ 6) (bit_and n 63)) ∷ [], s))
    else if not (bit_test c 4)
    then (do
      (n, s) ← read s
      (nn, s) ← read s
      assert (bit_and n 0xC0 == 0x80 && bit_and nn 0xC0 == 0x80)
      ok (
        u16 (bit_or (bit_or (bit_and c 15 * 2 ^ 12) (bit_and n 63 * 2 ^ 6)) (bit_and nn 63)) ∷ [],
        s,
      ))
    else do
      (n, s) ← read s
      (nn, s) ← read s
      (nnn, s) ← read s
      assert (bit_and n 0xC0 == 0x80 && bit_and nn 0xC0 == 0x80 && bit_and nnn 0xC0 == 0x80)
      let code_point = u32 (
          bit_or
            (bit_or (bit_or (bit_and c 7 * 2 ^ 18) (bit_and n 63 * 2 ^ 12)) (bit_and nn 63 * 2 ^ 6))
            (bit_and nnn 63)
          + 2 ^ 32
          - 0x10000)
      ok (
        u16 (bit_or 0xD800 (code_point / 2 ^ 10))
            ∷ u16 (bit_or 0xDC00 (bit_and code_point 0x3FF))
            ∷ [],
        s,
      )

-- One round of `unicode_toUtf8` at the unit `c`: the bytes written, and what is left.
pub to_utf8_step : ℕ → List ℕ → Result (List ℕ × List ℕ)
to_utf8_step c s =
    if ltb c 0x7F
    then ok (u8 c ∷ [], s)
    else if ltb c 0x7FF
    then ok (u8 (bit_or (c / 2 ^ 6) 0xC0) ∷ u8 (bit_or (bit_and c 0x3F) 0x80) ∷ [], s)
    else if leb 0xD800 c && ltb c 0xDC00
    then (do
      (n, s) ← read s
      let code_point = u32 (bit_or ((c - 0xD800) * 2 ^ 10) (u32 (n + 2 ^ 32 - 0xDC00)) + 0x10000)
      ok (
        u8 (bit_or (code_point / 2 ^ 18) 0xF0)
            ∷ u8 (bit_or (bit_and (code_point / 2 ^ 12) 0x3F) 0x80)
            ∷ u8 (bit_or (bit_and (code_point / 2 ^ 6) 0x3F) 0x80)
            ∷ u8 (bit_or (bit_and code_point 0x3F) 0x80)
            ∷ [],
        s,
      ))
    else ok (
      u8 (bit_or (c / 2 ^ 12) 0xE0)
          ∷ u8 (bit_or (bit_and (c / 2 ^ 6) 0x3F) 0x80)
          ∷ u8 (bit_or (bit_and c 0x3F) 0x80)
          ∷ [],
      s,
    )

-- The two kinds of loops. Each round takes a unit at least, so the length is enough fuel.
pub count_loop : (ℕ → List ℕ → Result (ℕ × List ℕ)) → ℕ → List ℕ → Result ℕ
count_loop step fuel [] = ok 0
count_loop step zero (c ∷ s) = fault out_of_fuel
count_loop step (suc fuel) (c ∷ s) = do
  (k, rest) ← step c s
  len ← count_loop step fuel rest
  ok (k + len)

pub write_loop : (ℕ → List ℕ → Result (List ℕ × List ℕ)) → ℕ → List ℕ → Result (List ℕ)
write_loop step fuel [] = ok []
write_loop step zero (c ∷ s) = fault out_of_fuel
write_loop step (suc fuel) (c ∷ s) = do
  (units, rest) ← step c s
  more ← write_loop step fuel rest
  ok (units ++ more)

unfoldable pub unicode_count_as_utf16 : List ℕ → Result ℕ
unfolding bit_test count_utf16_step count_loop
unicode_count_as_utf16 utf8 = count_loop count_utf16_step (length utf8) utf8

unfoldable pub unicode_count_as_utf8 : List ℕ → Result ℕ
unfolding count_utf8_step count_loop
unicode_count_as_utf8 utf16 = count_loop count_utf8_step (length utf16) utf16

unfoldable pub unicode_to_utf16 : List ℕ → Result (List ℕ)
unfolding unicode_count_as_utf16 to_utf16_step write_loop
unicode_to_utf16 utf8 = do
  expected_len ← unicode_count_as_utf16 utf8
  result ← write_loop to_utf16_step (length utf8) utf8
  assert (length result == expected_len)
  ok result

unfoldable pub unicode_to_utf8 : List ℕ → Result (List ℕ)
unfolding unicode_count_as_utf8 to_utf8_step write_loop
unicode_to_utf8 utf16 = do
  expected_len ← unicode_count_as_utf8 utf16
  result ← write_loop to_utf8_step (length utf16) utf16
  assert (length result == expected_len)
  ok result
