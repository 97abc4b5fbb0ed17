-- ===== src/Unicode/Convert/Pairs.antt =====
-- The rounds of the loops of libs/unicode/convert.c at a surrogate pair, in arithmetic.
use Prim.Native.Nat.{bit_and, bit_or}
use saki_os.Base.{
  ℕ, ◌+◌, ◌-◌, ◌*◌, ◌/◌, ◌%◌, ◌^◌, ◌≤◌, ◌<◌, ◌≡◌, refl, true, false, List, [], ◌∷◌, ok, arith,
  le→ltb, lt→ltb, le→leb, ◌∙◌,
}
use saki_os.Base.Bits.{bit_or-add, bit_and-mask, bit_or-F0, bit_or_80, bit_and-C0}
use saki_os.Unicode.Convert.{
  bit_test, count_utf16_step, count_utf8_step, to_utf16_step, to_utf8_step, u32,
}
use saki_os.Unicode.Convert.Steps.{bit_test_lem, three_fields}

four_fields :
    (a b c d : ℕ)
    → b < 64
    → c < 64
    → d < 64
    → bit_or (bit_or (bit_or (a * 2 ^ 18) (b * 2 ^ 12)) (c * 2 ^ 6)) d
      ≡ a * 2 ^ 18 + b * 2 ^ 12 + c * 2 ^ 6 + d
four_fields a b c d p q r =
    let e : a * 2 ^ 18 + b * 2 ^ 12 ≡ (a * 64 + b) * 2 ^ 12 = omega arith in
    rw (bit_or-add 18 a (b * 2 ^ 12) (omega arith), e, three_fields (a * 64 + b) c d q r)

-- the scalar value of a pair, and the four bytes that stand for it
abbrev pub scalar : ℕ → ℕ → ℕ
scalar c n = (c - 0xD800) * 1024 + (n - 0xDC00) + 0x10000

abbrev pub byte0 : ℕ → ℕ
byte0 v = v / 2 ^ 18 + 0xF0

abbrev pub byte1 : ℕ → ℕ
byte1 v = v / 2 ^ 12 % 64 + 0x80

abbrev pub byte2 : ℕ → ℕ
byte2 v = v / 2 ^ 6 % 64 + 0x80

abbrev pub byte3 : ℕ → ℕ
byte3 v = v % 64 + 0x80

module _ (s : List ℕ) (c n : ℕ) (c_lo : 0xD800 ≤ c) (c_hi : c < 0xDC00) (n_lo : 0xDC00 ≤ n)
    (n_hi : n < 0xE000) where
  joined : u32 (bit_or ((c - 0xD800) * 2 ^ 10) (u32 (n + 2 ^ 32 - 0xDC00)) + 0x10000) ≡ scalar c n
  joined =
      let e : u32 (n + 2 ^ 32 - 0xDC00) ≡ n - 0xDC00 = omega arith in
      rw (e, bit_or-add 10 (c - 0xD800) (n - 0xDC00) (omega arith)) (omega arith)

  pub to_utf8-four :
      to_utf8_step c (n ∷ s)
      ≡ ok (
        byte0 (scalar c n) ∷ byte1 (scalar c n) ∷ byte2 (scalar c n) ∷ byte3 (scalar c n) ∷ [],
        s,
      )
  unfolding to_utf8_step
  to_utf8-four =
      let v = scalar c n in
      rw
        (
          le→ltb c 0x7F (omega arith),
          le→ltb c 0x7FF (omega arith),
          le→leb 0xD800 c c_lo,
          lt→ltb c 0xDC00 c_hi,
          joined,
          bit_and-mask 6 (v / 2 ^ 12),
          bit_and-mask 6 (v / 2 ^ 6),
          bit_and-mask 6 v,
          bit_or-F0 (v / 2 ^ 18) (omega arith),
          bit_or_80 (v / 2 ^ 12 % 64) (omega arith),
          bit_or_80 (v / 2 ^ 6 % 64) (omega arith),
          bit_or_80 (v % 64) (omega arith),
        )
        (ground arith)

  pub count_utf8-four : count_utf8_step c (n ∷ s) ≡ ok (4, s)
  unfolding count_utf8_step
  count_utf8-four = rw (
    le→ltb c 0x7F (omega arith),
    le→ltb c 0x7FF (omega arith),
    le→leb 0xD800 c c_lo,
    lt→ltb c 0xDC00 c_hi,
    le→leb 0xDC00 n n_lo,
    lt→ltb c 0xE000 (omega arith),
  )

  bit7 : bit_test (byte0 (scalar c n)) 7 ≡ true
  bit7 = rw bit_test_lem (ground arith)

  bit6 : bit_test (byte0 (scalar c n)) 6 ≡ true
  bit6 = rw bit_test_lem (ground arith)

  bit5 : bit_test (byte0 (scalar c n)) 5 ≡ true
  bit5 = rw bit_test_lem (ground arith)

  bit4 : bit_test (byte0 (scalar c n)) 4 ≡ true
  bit4 = rw bit_test_lem (ground arith)

  bit3 : bit_test (byte0 (scalar c n)) 3 ≡ false
  bit3 = rw bit_test_lem (ground arith)

  pub count_utf16-four :
      count_utf16_step
        (byte0 (scalar c n))
        (byte1 (scalar c n) ∷ byte2 (scalar c n) ∷ byte3 (scalar c n) ∷ s)
      ≡ ok (2, s)
  unfolding count_utf16_step
  count_utf16-four = rw (bit7, bit6, bit5, bit4, bit3)

  split_high : (v : ℕ) → v ≡ scalar c n → bit_or 0xD800 ((v - 0x10000) / 2 ^ 10) ≡ c
  split_high v e = bit_or-add 11 27 ((v - 0x10000) / 2 ^ 10) (omega arith) ∙ omega arith

  split_low : (v : ℕ) → v ≡ scalar c n → bit_or 0xDC00 (bit_and (v - 0x10000) 0x3FF) ≡ n
  split_low v e =
      rw (bit_and-mask 10 (v - 0x10000))
        (bit_or-add 10 55 ((v - 0x10000) % 2 ^ 10) (omega arith) ∙ omega arith)

  unpacked :
      (v : ℕ)
      → v ≡ scalar c n
      → u32 (
          byte0 v % 8 * 2 ^ 18
          + byte1 v % 64 * 2 ^ 12
          + byte2 v % 64 * 2 ^ 6
          + byte3 v % 64
          + 2 ^ 32
          - 0x10000)
        ≡ v - 0x10000
  unpacked v e = omega arith

  pub to_utf16-four :
      to_utf16_step
        (byte0 (scalar c n))
        (byte1 (scalar c n) ∷ byte2 (scalar c n) ∷ byte3 (scalar c n) ∷ s)
      ≡ ok (c ∷ n ∷ [], s)
  unfolding to_utf16_step
  to_utf16-four =
      let v = scalar c n in
      rw
        (
          bit7,
          bit5,
          bit4,
          bit_and-C0 (v / 2 ^ 12 % 64) (omega arith),
          bit_and-C0 (v / 2 ^ 6 % 64) (omega arith),
          bit_and-C0 (v % 64) (omega arith),
          bit_and-mask 3 (byte0 v),
          bit_and-mask 6 (byte1 v),
          bit_and-mask 6 (byte2 v),
          bit_and-mask 6 (byte3 v),
          four_fields (byte0 v % 8) (byte1 v % 64) (byte2 v % 64) (byte3 v % 64) (omega arith)
              (omega arith) (omega arith),
          unpacked v refl,
          split_high v refl,
          split_low v refl,
        )
        (ground arith)
