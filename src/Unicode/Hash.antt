-- ===== src/Unicode/Hash.antt =====
-- libs/unicode/hash.c. A string has fewer than 2^31 units, so that no difference of two `int`s in
-- it overflows; the hash is kept as the 32-bit pattern of the `int32_t`.
pub mod Order
pub mod Instance
use saki_os.Base.{ℕ, ◌+◌, ◌*◌, ◌%◌, ◌^◌, List, [], ◌∷◌, ◌==◌, if◌then◌else◌, length, ℤ, sub_ℕ}

-- the `for` of `unicode_utf16Cmp`, which runs while both strings have a unit
pub cmp_loop : ℤ → List ℕ → List ℕ → ℤ
cmp_loop by_length [] s2 = by_length
cmp_loop by_length (a ∷ s1) [] = by_length
cmp_loop by_length (a ∷ s1) (b ∷ s2) = if a == b then cmp_loop by_length s1 s2 else sub_ℕ a b

unfoldable pub unicode_utf16_cmp : List ℕ → List ℕ → ℤ
unfolding cmp_loop
unicode_utf16_cmp s1 s2 = cmp_loop (sub_ℕ (length s1) (length s2)) s1 s2

pub hash_loop : ℕ → List ℕ → ℕ
hash_loop h [] = h
hash_loop h (c ∷ s) = hash_loop ((31 * h + c) % 2 ^ 32) s

unfoldable pub unicode_utf16_hash : List ℕ → ℕ
unfolding hash_loop
unicode_utf16_hash key = hash_loop 0 key
