-- ===== src/DataStruct/Key.antt =====
-- The two function pointers that `hashmap_new` stores, `comparator_t` and `hash_t` of
-- include/data-struct/hashmap.h, with what a hashed container asks of them. A hash is its 32-bit
-- pattern; of the comparator's result the map reads only whether it is 0.
use saki_os.Base.{ℕ, ◌^◌, ◌<◌, ◌≡◌, Bool, true, arith, ℤ, is_zero}

pub record Key {ℓ} (K : Type ℓ) : Type ℓ where
  pub hash : K → ℕ
  pub compare : K → K → ℤ
  pub hash-lt : (a : K) → hash a < 2 ^ 32
  pub compare_refl : (a : K) → is_zero (compare a a) ≡ true
  pub compare_symm : (a b : K) → is_zero (compare a b) ≡ true → is_zero (compare b a) ≡ true
  pub compare_trans :
      (a b c : K)
      → is_zero (compare a b) ≡ true
      → is_zero (compare b c) ≡ true
      → is_zero (compare a c) ≡ true
  pub hash-compare : (a b : K) → is_zero (compare a b) ≡ true → hash a ≡ hash b

module _ {ℓ} {K : Type ℓ} ⦃key : Key K⦄ where
  abbrev pub same : K → K → Bool
  same a b = is_zero (key.compare a b)

  pub same_refl : (a : K) → same a a ≡ true
  same_refl a = ground (arith, key.compare_refl a)

  pub same_symm : (a b : K) → same a b ≡ same b a
  same_symm a b = ground (arith, key.compare_symm a b, key.compare_symm b a)

  pub same_congr : (a b c : K) → same a b ≡ true → same a c ≡ same b c
  same_congr a b c h =
      ground (arith, key.compare_symm a b, key.compare_trans a b c, key.compare_trans b a c)

  pub same_hash : (a b : K) → same a b ≡ true → key.hash a ≡ key.hash b
  same_hash a b h = ground (arith, key.hash-compare a b)

  pub same_congr_right : (a b c : K) → same b c ≡ true → same a b ≡ same a c
  same_congr_right a b c h =
      ground (arith, key.compare_symm b c, key.compare_trans a b c, key.compare_trans a c b)
