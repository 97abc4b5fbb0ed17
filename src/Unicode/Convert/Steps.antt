-- ===== src/Unicode/Convert/Steps.antt =====
-- The rounds of the loops of libs/unicode/convert.c in arithmetic, one lemma for each length of
-- encoding: what a unit is written as, and what these bytes are read as.
use Prim.Native.Nat.{bit_or}
use native.Mathlib.Nat.{one-le-pow}
use saki_os.Base.{
  ℕ, ◌+◌, ◌*◌, ◌/◌, ◌%◌, ◌^◌, ◌≤◌, ◌<◌, ◌≡◌, ap, true, false, ◌&&◌, List, [], ◌∷◌, ◌==◌, ok, arith,
  ltb, leb, le→ltb,
}
use saki_os.Base.Bits.{
  bit_or-add, bit_and-mask, bit_and-two_pow, bit_or-C0, bit_or-E0, bit_or_80, bit_and-C0,
}
use saki_os.Unicode.Convert.{
  bit_test, count_utf16_step, count_utf8_step, to_utf16_step, to_utf8_step,
}

pub bit_test_lem : (num bit : ℕ) → bit_test num bit ≡ (num / 2 ^ bit % 2 == 1)
unfolding bit_test
bit_test_lem num bit = rw (bit_and-two_pow bit num) (ground (arith, one-le-pow bit 2))

pub three_fields :
    (a b c : ℕ)
    → b < 64
    → c < 64
    → bit_or (bit_or (a * 2 ^ 12) (b * 2 ^ 6)) c ≡ a * 2 ^ 12 + b * 2 ^ 6 + c
three_fields a b c p q =
    let e : a * 2 ^ 12 + b * 2 ^ 6 ≡ (a * 64 + b) * 2 ^ 6 = omega arith in
    rw (bit_or-add 12 a (b * 2 ^ 6) (omega arith), e, bit_or-add 6 (a * 64 + b) c q)

module _ (s : List ℕ) where
  module _ (c : ℕ) (hi : c < 0x7F) where
    pub to_utf8-one : to_utf8_step c s ≡ ok (c ∷ [], s)
    unfolding to_utf8_step
    to_utf8-one = ground arith

    pub count_utf8-one : count_utf8_step c s ≡ ok (1, s)
    unfolding count_utf8_step
    count_utf8-one = ground arith

    top : bit_test c 7 ≡ false
    top = rw bit_test_lem (ground arith)

    pub to_utf16-one : to_utf16_step c s ≡ ok (c ∷ [], s)
    unfolding to_utf16_step
    to_utf16-one = rw top

    pub count_utf16-one : count_utf16_step c s ≡ ok (1, s)
    unfolding count_utf16_step
    count_utf16-one = rw top

  module _ (c : ℕ) (lo : 0x7F ≤ c) (hi : c < 0x7FF) where
    abbrev lead : ℕ
    lead = c / 64 + 0xC0

    abbrev cont : ℕ
    cont = c % 64 + 0x80

    pub to_utf8-two : to_utf8_step c s ≡ ok (lead ∷ cont ∷ [], s)
    unfolding to_utf8_step
    to_utf8-two =
        rw (bit_or-C0 (c / 64) (omega arith), bit_and-mask 6 c, bit_or_80 (c % 64) (omega arith))
          (ground arith)

    bit7 : bit_test lead 7 ≡ true
    bit7 = rw bit_test_lem (ground arith)

    bit6 : bit_test lead 6 ≡ true
    bit6 = rw bit_test_lem (ground arith)

    bit5 : bit_test lead 5 ≡ false
    bit5 = rw bit_test_lem (ground arith)

    pub to_utf16-two : to_utf16_step lead (cont ∷ s) ≡ ok (c ∷ [], s)
    unfolding to_utf16_step
    to_utf16-two =
        rw
          (
            bit7,
            bit5,
            bit_and-C0 (c % 64) (omega arith),
            bit_and-mask 5 lead,
            bit_and-mask 6 cont,
            bit_or-add 6 (lead % 32) (cont % 64) (omega arith),
          )
          (ap (λ (u : ℕ). ok (u ∷ [], s)) (omega arith))

    pub count_utf8-two : count_utf8_step c s ≡ ok (2, s)
    unfolding count_utf8_step
    count_utf8-two = ground arith

    pub count_utf16-two : count_utf16_step lead (cont ∷ s) ≡ ok (1, s)
    unfolding count_utf16_step
    count_utf16-two = rw (bit7, bit6, bit5)

  module _ (c : ℕ) (lo : 0x7FF ≤ c) (hi : c < 2 ^ 16) where
    abbrev lead3 : ℕ
    lead3 = c / 4096 + 0xE0

    abbrev mid3 : ℕ
    mid3 = c / 64 % 64 + 0x80

    abbrev last3 : ℕ
    last3 = c % 64 + 0x80

    module _ (plain : (leb 0xD800 c && ltb c 0xDC00) ≡ false) where
      pub to_utf8-three : to_utf8_step c s ≡ ok (lead3 ∷ mid3 ∷ last3 ∷ [], s)
      unfolding to_utf8_step
      to_utf8-three =
          rw
            (
              le→ltb c 0x7F (omega arith),
              le→ltb c 0x7FF lo,
              plain,
              bit_or-E0 (c / 4096) (omega arith),
              bit_and-mask 6 (c / 64),
              bit_and-mask 6 c,
              bit_or_80 (c / 64 % 64) (omega arith),
              bit_or_80 (c % 64) (omega arith),
            )
            (ground arith)

      pub count_utf8-three : count_utf8_step c s ≡ ok (3, s)
      unfolding count_utf8_step
      count_utf8-three = rw (le→ltb c 0x7F (omega arith), le→ltb c 0x7FF lo, plain)

    bit7_of_three : bit_test lead3 7 ≡ true
    bit7_of_three = rw bit_test_lem (ground arith)

    bit6_of_three : bit_test lead3 6 ≡ true
    bit6_of_three = rw bit_test_lem (ground arith)

    bit5_of_three : bit_test lead3 5 ≡ true
    bit5_of_three = rw bit_test_lem (ground arith)

    bit4_of_three : bit_test lead3 4 ≡ false
    bit4_of_three = rw bit_test_lem (ground arith)

    pub to_utf16-three : to_utf16_step lead3 (mid3 ∷ last3 ∷ s) ≡ ok (c ∷ [], s)
    unfolding to_utf16_step
    to_utf16-three =
        rw
          (
            bit7_of_three,
            bit5_of_three,
            bit4_of_three,
            bit_and-C0 (c / 64 % 64) (omega arith),
            bit_and-C0 (c % 64) (omega arith),
            bit_and-mask 4 lead3,
            bit_and-mask 6 mid3,
            bit_and-mask 6 last3,
            three_fields (lead3 % 16) (mid3 % 64) (last3 % 64) (omega arith) (omega arith),
          )
          (ap (λ (u : ℕ). ok (u ∷ [], s)) (omega arith))

    pub count_utf16-three : count_utf16_step lead3 (mid3 ∷ last3 ∷ s) ≡ ok (1, s)
    unfolding count_utf16_step
    count_utf16-three = rw (bit7_of_three, bit6_of_three, bit5_of_three, bit4_of_three)
