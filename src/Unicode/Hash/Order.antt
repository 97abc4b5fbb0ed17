-- ===== src/Unicode/Hash/Order.antt =====
-- libs/unicode/hash.c: the comparison is the lexicographic order of the units.
use saki_os.Base.{
  ℕ, ◌≡◌, Bool, true, false, ◌&&◌, ◌||◌, List, [], ◌∷◌, ◌==◌, ltb, length, ℤ, sub_ℕ, is_zero,
  is_neg, is_zero-sub_ℕ, is_neg-sub_ℕ, arith,
}
use saki_os.Unicode.Hash.{cmp_loop, unicode_utf16_cmp}

unfoldable pub same_units : List ℕ → List ℕ → Bool
same_units [] [] = true
same_units [] (b ∷ t) = false
same_units (a ∷ s) [] = false
same_units (a ∷ s) (b ∷ t) = a == b && same_units s t

-- a proper prefix comes first, and else the first unit that differs decides
unfoldable pub lex_before : List ℕ → List ℕ → Bool
lex_before [] [] = false
lex_before [] (b ∷ t) = true
lex_before (a ∷ s) [] = false
lex_before (a ∷ s) (b ∷ t) = ltb a b || (a == b && lex_before s t)

cmp_loop-signs :
    (d : ℤ) (s t : List ℕ)
    → is_zero d ≡ (length s == length t)
    → is_neg d ≡ ltb (length s) (length t)
    → (is_zero (cmp_loop d s t) ≡ same_units s t) × (is_neg (cmp_loop d s t) ≡ lex_before s t)
unfolding cmp_loop same_units lex_before
cmp_loop-signs d [] [] z n = (z, n)
cmp_loop-signs d [] (b ∷ t) z n = (ground arith, ground arith)
cmp_loop-signs d (a ∷ s) [] z n = (ground arith, ground arith)
cmp_loop-signs d (a ∷ s) (b ∷ t) z n =
    let (z', n') = cmp_loop-signs d s t (ground arith) (ground arith) in
    (ground (arith, is_zero-sub_ℕ a b), ground (arith, is_neg-sub_ℕ a b))

-- `unicode_utf16Cmp` returns 0 exactly at equal strings, and a negative number exactly where the
-- first string comes before the second in the lexicographic order.
pub utf16_cmp-signs :
    (s t : List ℕ)
    → (is_zero (unicode_utf16_cmp s t) ≡ same_units s t)
      × (is_neg (unicode_utf16_cmp s t) ≡ lex_before s t)
unfolding unicode_utf16_cmp
utf16_cmp-signs s t =
    cmp_loop-signs (sub_ℕ (length s) (length t)) s t (is_zero-sub_ℕ (length s) (length t))
      (is_neg-sub_ℕ (length s) (length t))
