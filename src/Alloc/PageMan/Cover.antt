-- ===== src/Alloc/PageMan/Cover.antt =====
-- libs/mem-alloc/pageman.c: how many free blocks hold the byte at an offset from `base`.
use saki_os.Base.{
  ℕ, zero, suc, ◌+◌, ◌*◌, ◌%◌, ◌<◌, ◌≡◌, ap, true, false, ◌&&◌, List, [], ◌∷◌, ◌==◌, ==→eq, ltb,
  leb, if◌then◌else◌, get_or, set, length, ok, ok-injective, bind-ok, subst, inl, inr, Bool-cases,
  arith,
}
use saki_os.Alloc.PageMan.{block_size, offset, list_remove}
use saki_os.Alloc.PageMan.Buddy.{Joined}

-- 1 where the `p` bytes at the offset `o` hold the byte `q`
abbrev pub holds : ℕ → ℕ → ℕ → ℕ
holds p o q = if leb o q && ltb q (o + p) then 1 else 0

pub Joined-holds :
    {p o ob os : ℕ} → Joined p o ob os → (q : ℕ) → holds p o q + holds p ob q ≡ holds (2 * p) os q
Joined-holds {p} {o} {ob} {os} j q = elim j.sides [
  | inl s ↦ ground (arith, s.0, s.1)
  | inr s ↦ ground (arith, s.0, s.1)
]

module _ (base : ℕ) where
  -- the blocks of a list of a level
  unfoldable pub count : ℕ → List ℕ → ℕ → ℕ
  count level [] q = 0
  count level (a ∷ l) q = holds (block_size level) (offset base a) q + count level l q

  -- the blocks of all lists, the first of them of the level given
  unfoldable pub cover : ℕ → List (List ℕ) → ℕ → ℕ
  cover level [] q = 0
  cover level (l ∷ ls) q = count level l q + cover (level + 1) ls q

  unfoldable pub AreAligned : ℕ → List ℕ → Type 0
  AreAligned level [] = Unit {0}
  AreAligned level (a ∷ l) = (offset base a % block_size level ≡ 0) × AreAligned level l

  -- what is left after the head was not the one
  pub list_remove-tail :
      (a b : ℕ) (l l' : List ℕ)
      → a == b ≡ false
      → list_remove a (b ∷ l) ≡ ok l'
      → (k : List ℕ) × (list_remove a l ≡ ok k) × (b ∷ k ≡ l')
  unfolding list_remove
  list_remove-tail a b l l' differ e =
      let (k, r, f) = bind-ok (list_remove a l) (λ k. ok (b ∷ k)) (rw differ at e) in
      (k, r, ok-injective f)

  pub list_remove-head :
      (a b : ℕ) (l l' : List ℕ) → a == b ≡ true → list_remove a (b ∷ l) ≡ ok l' → l ≡ l'
  unfolding list_remove
  list_remove-head a b l l' same e = ok-injective (rw same at e)

  pub list_remove-count :
      (level a : ℕ) (l l' : List ℕ) (q : ℕ)
      → list_remove a l ≡ ok l'
      → count level l q ≡ holds (block_size level) (offset base a) q + count level l' q
  unfolding count
  list_remove-count level a [] l' q e = unfold list_remove in ground arith
  list_remove-count level a (b ∷ l) l' q e = elim (Bool-cases (a == b)) [
    | inl same ↦
        let tail = ap (λ x. count level x q) (list_remove-head a b l l' same e) in
        let head = ap (λ x. holds (block_size level) (offset base x) q) (==→eq a b same) in
        omega (arith, tail, head)
    | inr differ ↦
        let (k, r, f) = list_remove-tail a b l l' differ e in
        let rest = list_remove-count level a l k q r in
        let whole = ap (λ x. count level x q) f in omega (arith, rest, whole)
  ]

  pub cover-set :
      (level i m : ℕ) (ls : List (List ℕ)) (l : List ℕ) (q : ℕ)
      → level + i ≡ m
      → i < length ls
      → cover level (set ls i l) q + count m (get_or ls i []) q ≡ cover level ls q + count m l q
  unfolding cover
  cover-set level i m [] l q e h = absurd (omega arith)
  cover-set level zero m (k ∷ ls) l q e h =
      let same : level ≡ m = omega arith in
      omega (arith, ap (λ t. count t k q) same, ap (λ t. count t l q) same)
  cover-set level (suc i) m (k ∷ ls) l q e h =
      omega (arith, cover-set (level + 1) i m ls l q (omega arith) (omega arith))

  pub list_remove-AreAligned :
      (level a : ℕ) (l l' : List ℕ)
      → list_remove a l ≡ ok l'
      → AreAligned level l
      → AreAligned level l'
  unfolding AreAligned
  list_remove-AreAligned level a [] l' e al = unfold list_remove in ground arith
  list_remove-AreAligned level a (b ∷ l) l' e al = elim (Bool-cases (a == b)) [
    | inl same ↦ subst (AreAligned level) (list_remove-head a b l l' same e) al.1
    | inr differ ↦
        let (k, r, f) = list_remove-tail a b l l' differ e in
        subst (AreAligned level) f (al.0, list_remove-AreAligned level a l k r al.1)
  ]
