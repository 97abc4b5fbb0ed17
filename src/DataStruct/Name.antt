-- ===== src/DataStruct/Name.antt =====
-- libs/data-struct/hashmap.c with strings as keys: `string_comparator`, `string_hash` and
-- `hashmap_new_string`. A string is the list of its bytes in front of the NUL.
use saki_os.Base.{
  ℕ, zero, suc, ◌+◌, ◌-◌, ◌*◌, ◌%◌, ◌^◌, ◌<◌, ◌≡◌, refl, ap, ap₂, ◌∙◌, true, false, Option, none,
  some, List, [], ◌∷◌, ◌==◌, ltb, if◌then◌else◌, ℤ, is_zero, arith, ==_refl, ==→eq, Bool-cases, inl,
  inr,
}
use saki_os.CString.{Memory, char_value, char_diff}
use saki_os.DataStruct.Key.{Key}
use saki_os.DataStruct.Hashmap.{Hashmap, hashmap_new}

-- bytes other than NUL
unfoldable pub IsText : List ℕ → Type 0
IsText [] = Unit {0}
IsText (c ∷ s) = (0 < c) × (c < 256) × IsText s

pub record Name : Type 0 where
  pub chars : List ℕ
  pub text : IsText chars

-- `strcmp` of two strings
unfoldable pub text_cmp : List ℕ → List ℕ → ℤ
text_cmp [] [] = char_value 0
text_cmp (a ∷ s) [] = char_value a
text_cmp [] (b ∷ t) = char_diff 0 b
text_cmp (a ∷ s) (b ∷ t) = if a == b then text_cmp s t else char_diff a b

-- the loop of `string_hash`; a `char` is signed
unfoldable pub text_hash : ℕ → List ℕ → ℕ
text_hash h [] = h
text_hash h (c ∷ s) = text_hash ((31 * h + (if ltb c 128 then c else c + 2 ^ 32 - 256)) % 2 ^ 32) s

unfoldable pub string_comparator : Name → Name → ℤ
unfolding text_cmp
string_comparator a b = text_cmp a.chars b.chars

unfoldable pub string_hash : Name → ℕ
unfolding text_hash
string_hash key = text_hash 0 key.chars

text_cmp_refl : (s : List ℕ) → is_zero (text_cmp s s) ≡ true
unfolding text_cmp
text_cmp_refl [] = refl
text_cmp_refl (a ∷ s) = rw (==_refl a) (text_cmp_refl s)

text_cmp-zero : (s t : List ℕ) → IsText s → IsText t → is_zero (text_cmp s t) ≡ true → s ≡ t
unfolding text_cmp IsText
text_cmp-zero [] [] u v e = refl
text_cmp-zero (a ∷ s) [] u v e = absurd (ground (arith, e, u.0, u.1))
text_cmp-zero [] (b ∷ t) u v e = absurd (ground (arith, e, v.0, v.1))
text_cmp-zero (a ∷ s) (b ∷ t) u v e = elim (Bool-cases (a == b)) [
  | inl same ↦
      ap₂ (λ (x : ℕ) (r : List ℕ). x ∷ r) (==→eq a b same)
        (text_cmp-zero s t u.2 v.2 (rw same at e))
  | inr other ↦ absurd (ground (arith, e, other, u.0, u.1, v.0, v.1))
]

text_hash-lt : (h : ℕ) (s : List ℕ) → h < 2 ^ 32 → text_hash h s < 2 ^ 32
unfolding text_hash
text_hash-lt h [] lt = lt
text_hash-lt h (c ∷ s) lt =
    text_hash-lt ((31 * h + (if ltb c 128 then c else c + 2 ^ 32 - 256)) % 2 ^ 32) s (omega arith)

same_chars : (a b : Name) → is_zero (string_comparator a b) ≡ true → a.chars ≡ b.chars
unfolding string_comparator
same_chars a b e = text_cmp-zero a.chars b.chars a.text b.text e

pub name_hash-lt : (a : Name) → string_hash a < 2 ^ 32
unfolding string_hash
name_hash-lt a = text_hash-lt 0 a.chars (omega arith)

pub comparator_refl : (a : Name) → is_zero (string_comparator a a) ≡ true
unfolding string_comparator
comparator_refl a = text_cmp_refl a.chars

pub comparator_symm :
    (a b : Name) → is_zero (string_comparator a b) ≡ true → is_zero (string_comparator b a) ≡ true
comparator_symm a b h = unfold string_comparator in rw (same_chars a b h) (text_cmp_refl b.chars)

pub comparator_trans :
    (a b c : Name)
    → is_zero (string_comparator a b) ≡ true
    → is_zero (string_comparator b c) ≡ true
    → is_zero (string_comparator a c) ≡ true
comparator_trans a b c h k =
    unfold string_comparator in rw (same_chars a b h ∙ same_chars b c k) (text_cmp_refl c.chars)

pub hash-comparator :
    (a b : Name) → is_zero (string_comparator a b) ≡ true → string_hash a ≡ string_hash b
hash-comparator a b h = unfold string_hash in ap (λ s. text_hash 0 s) (same_chars a b h)

instance abbrev pub name_key : Key Name
name_key = record {
  hash = string_hash;
  compare = string_comparator;
  hash-lt = name_hash-lt;
  compare_refl = comparator_refl;
  compare_symm = comparator_symm;
  compare_trans = comparator_trans;
  hash-compare = hash-comparator;
}

unfoldable pub hashmap_new_string : {V : Type 0} → ℕ → Hashmap Name V
hashmap_new_string size = hashmap_new size

pub byte-IsText : (c : ℕ) (s : List ℕ) → (c % 256 == 0) ≡ false → IsText s → IsText (c % 256 ∷ s)
unfolding IsText
byte-IsText c s inside text = (ground (arith, inside), ground (arith, inside), text)

abbrev pub name_from : ℕ → Option Name → Option Name
name_from c none = none
name_from c (some s) = elim (Bool-cases (c % 256 == 0)) [
  | inl end ↦ none
  | inr inside ↦
      some (record { chars = c % 256 ∷ s.chars; text = byte-IsText c s.chars inside s.text })
]

-- the string at an address, of fewer than `limit` bytes
unfoldable pub name_at : ℕ → Memory → ℕ → Option Name
unfolding IsText
name_at zero m p = none
name_at (suc limit) m p =
    let rest = name_at limit m (p + 1) in
    if m p % 256 == 0 then some (record { chars = []; text = tt }) else name_from (m p) rest
