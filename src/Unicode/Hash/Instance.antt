-- ===== src/Unicode/Hash/Instance.antt =====
-- `hashmap_new_utf16` of libs/unicode/hash.c: UTF-16 strings meet what a hash map asks of its keys.
use saki_os.Base.{
  ℕ, ◌+◌, ◌*◌, ◌%◌, ◌^◌, ◌<◌, ◌≡◌, refl, ap, ◌∙◌, sym, true, List, [], ◌∷◌, is_zero, arith, ==_refl,
  ap₂,
}
use saki_os.DataStruct.Key.{Key}
use saki_os.DataStruct.Hashmap.{Hashmap, hashmap_new}
use saki_os.Unicode.Hash.{unicode_utf16_cmp, hash_loop, unicode_utf16_hash}
use saki_os.Unicode.Hash.Order.{same_units, utf16_cmp-signs}

same_units-eq : (s t : List ℕ) → same_units s t ≡ true → s ≡ t
unfolding same_units
same_units-eq [] [] h = refl
same_units-eq [] (b ∷ t) h = cc
same_units-eq (a ∷ s) [] h = cc
same_units-eq (a ∷ s) (b ∷ t) h =
    ap₂ (λ (x : ℕ) (r : List ℕ). x ∷ r) (ground arith) (same_units-eq s t (ground arith))

same_units_refl : (s : List ℕ) → same_units s s ≡ true
unfolding same_units
same_units_refl [] = refl
same_units_refl (a ∷ s) = rw (==_refl a) (same_units_refl s)

-- The comparison returns 0 at equal strings and at no others.
pub cmp-zero : (s t : List ℕ) → is_zero (unicode_utf16_cmp s t) ≡ true → s ≡ t
cmp-zero s t h = same_units-eq s t (sym (utf16_cmp-signs s t).0 ∙ h)

pub cmp_refl : (s : List ℕ) → is_zero (unicode_utf16_cmp s s) ≡ true
cmp_refl s = (utf16_cmp-signs s s).0 ∙ same_units_refl s

hash_loop-lt : (h : ℕ) (s : List ℕ) → h < 2 ^ 32 → hash_loop h s < 2 ^ 32
unfolding hash_loop
hash_loop-lt h [] lt = lt
hash_loop-lt h (c ∷ s) lt = hash_loop-lt ((31 * h + c) % 2 ^ 32) s (omega arith)

pub hash-lt : (s : List ℕ) → unicode_utf16_hash s < 2 ^ 32
unfolding unicode_utf16_hash
hash-lt s = hash_loop-lt 0 s (omega arith)

pub cmp_symm :
    (s t : List ℕ) → is_zero (unicode_utf16_cmp s t) ≡ true → is_zero (unicode_utf16_cmp t s) ≡ true
cmp_symm s t h = rw (cmp-zero s t h) (cmp_refl t)

pub cmp_trans :
    (s t u : List ℕ)
    → is_zero (unicode_utf16_cmp s t) ≡ true
    → is_zero (unicode_utf16_cmp t u) ≡ true
    → is_zero (unicode_utf16_cmp s u) ≡ true
cmp_trans s t u h k = rw (cmp-zero s t h ∙ cmp-zero t u k) (cmp_refl u)

pub hash-cmp :
    (s t : List ℕ)
    → is_zero (unicode_utf16_cmp s t) ≡ true
    → unicode_utf16_hash s ≡ unicode_utf16_hash t
hash-cmp s t h = ap unicode_utf16_hash (cmp-zero s t h)

instance abbrev pub utf16_key : Key (List ℕ)
utf16_key = record {
  hash = unicode_utf16_hash;
  compare = unicode_utf16_cmp;
  hash-lt = hash-lt;
  compare_refl = cmp_refl;
  compare_symm = cmp_symm;
  compare_trans = cmp_trans;
  hash-compare = hash-cmp;
}

unfoldable pub hashmap_new_utf16 : {V : Type 0} → ℕ → Hashmap (List ℕ) V
hashmap_new_utf16 size = hashmap_new size
