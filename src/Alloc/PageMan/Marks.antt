-- ===== src/Alloc/PageMan/Marks.antt =====
-- libs/mem-alloc/pageman.c: a bit is set where exactly one block of its pair is free.
use saki_os.Base.{
  ℕ, ◌+◌, ◌^◌, ◌<◌, ◌≡◌, ◌∙◌, refl, sym, ap, subst, Bool, true, false, not, List, [], ◌∷◌, ◌==◌,
  if◌then◌else◌, get_or, set, length, get_or-set, ok, Bool-cases, inl, inr, ==→eq, ==_refl, arith,
}
use saki_os.Alloc.PageMan.Cover.{list_remove-head, list_remove-tail}
use saki_os.Alloc.PageMan.{PageMan, total_level, get_offset, list_remove, bitmap_switch}

-- the blocks of a list that belong to a pair
unfoldable pub pairs : ℕ → ℕ → List ℕ → ℕ → ℕ
pairs base level [] i = 0
pairs base level (a ∷ l) i = (if get_offset base a level == i then 1 else 0) + pairs base level l i

unfoldable pub AreWords : List ℕ → Type 0
AreWords [] = Unit {0}
AreWords (a ∷ l) = (a < 2 ^ 32) × AreWords l

pub record IsMarked (man : PageMan) : Type 0 where
  pub marks :
      (level i : ℕ)
      → level < total_level
      → pairs man.base level (get_or man.lists level []) i ≡ (if man.bitmaps level i then 1 else 0)
  pub words : (level : ℕ) → AreWords (get_or man.lists level [])

-- the manager with another list at a level, where the bit of a pair is switched
abbrev pub switched : PageMan → ℕ → ℕ → List ℕ → ℕ → PageMan
switched man level index list spare = record man {
  bitmaps = bitmap_switch man.bitmaps level index;
  spare = spare;
  lists = set man.lists level list;
}

-- the bits of a level, one of them switched
abbrev pub flipped : (ℕ → Bool) → ℕ → ℕ → Bool
flipped bits index i = if i == index then not (bits i) else bits i

pub switched-IsMarked :
    (man : PageMan) (level index : ℕ) (list : List ℕ) (spare : ℕ)
    → level < length man.lists
    → IsMarked man
    → AreWords list
    → ((i : ℕ)
        → pairs man.base level list i ≡ (if flipped (man.bitmaps level) index i then 1 else 0))
    → IsMarked (switched man level index list spare)
switched-IsMarked man level index list spare h v w e = record {
  marks = λ l i k. elim (Bool-cases (l == level)) [
    | inl same ↦
        rw (get_or-set man.lists level l list [] h, same)
          (subst (λ t. pairs man.base t list i ≡ (if flipped (man.bitmaps t) index i then 1 else 0))
            (sym (==→eq l level same)) (e i))
    | inr other ↦ rw (get_or-set man.lists level l list [] h, other) (v.marks l i k)
  ];
  words = λ l. elim (Bool-cases (l == level)) [
    | inl same ↦ rw (get_or-set man.lists level l list [] h, same) w
    | inr other ↦ rw (get_or-set man.lists level l list [] h, other) (v.words l)
  ];
}

flip_lem :
    (bits : ℕ → Bool) (index i n : ℕ)
    → n ≡ (if bits i then 1 else 0)
    → bits index ≡ false
    → (if index == i then 1 else 0) + n ≡ (if flipped bits index i then 1 else 0)
flip_lem bits index i n e clear = elim (Bool-cases (index == i)) [
  | inl same ↦ ground (arith, e, clear, ap bits (==→eq index i same))
  | inr other ↦ ground (arith, e, other)
]

unflip_lem :
    (bits : ℕ → Bool) (index i n : ℕ)
    → (if index == i then 1 else 0) + n ≡ (if bits i then 1 else 0)
    → bits index ≡ true
    → n ≡ (if flipped bits index i then 1 else 0)
unflip_lem bits index i n e taken = elim (Bool-cases (index == i)) [
  | inl same ↦ ground (arith, e, taken, ap bits (==→eq index i same))
  | inr other ↦ ground (arith, e, other)
]

-- a block put in front, where the bit was clear
pub pairs-cons :
    (man : PageMan) (level addr i : ℕ)
    → level < total_level
    → IsMarked man
    → man.bitmaps level (get_offset man.base addr level) ≡ false
    → pairs man.base level (addr ∷ get_or man.lists level []) i
      ≡ (if flipped (man.bitmaps level) (get_offset man.base addr level) i then 1 else 0)
unfolding pairs
pairs-cons man level addr i h v e =
    flip_lem (man.bitmaps level) (get_offset man.base addr level) i _ (v.marks level i h) e

-- a block taken out, where the bit was set
pub pairs-taken :
    (man : PageMan) (level addr i : ℕ) (list : List ℕ)
    → level < total_level
    → IsMarked man
    → man.bitmaps level (get_offset man.base addr level) ≡ true
    → pairs man.base level (get_or man.lists level []) i
      ≡ (if get_offset man.base addr level == i then 1 else 0) + pairs man.base level list i
    → pairs man.base level list i
      ≡ (if flipped (man.bitmaps level) (get_offset man.base addr level) i then 1 else 0)
pairs-taken man level addr i list h v e q =
    unflip_lem (man.bitmaps level) (get_offset man.base addr level) i _ (sym q ∙ v.marks level i h)
      e

-- A list without blocks has no bit set.
pub empty-clear :
    (man : PageMan) (level i : ℕ)
    → level < total_level
    → IsMarked man
    → get_or man.lists level [] ≡ []
    → man.bitmaps level i ≡ false
unfolding pairs
empty-clear man level i h v e =
    ground (arith, sym (v.marks level i h) ∙ ap (λ l. pairs man.base level l i) e)

-- The first block of a list has its bit set.
pub first-set :
    (man : PageMan) (level first : ℕ) (rest : List ℕ)
    → level < total_level
    → IsMarked man
    → get_or man.lists level [] ≡ first ∷ rest
    → man.bitmaps level (get_offset man.base first level) ≡ true
unfolding pairs
first-set man level first rest h v e = ground (
  arith,
  sym (v.marks level (get_offset man.base first level) h)
      ∙ ap (λ l. pairs man.base level l (get_offset man.base first level)) e,
  ==_refl (get_offset man.base first level),
)

-- A block that is removed leaves the others of each pair.
pub list_remove-pairs :
    (base level a i : ℕ) (l l' : List ℕ)
    → list_remove a l ≡ ok l'
    → pairs base level l i ≡ (if get_offset base a level == i then 1 else 0) + pairs base level l' i
unfolding pairs
list_remove-pairs base level a i [] l' e = unfold list_remove in ground arith
list_remove-pairs base level a i (b ∷ l) l' e = elim (Bool-cases (a == b)) [
  | inl same ↦
      (let tail = ap (λ x. pairs base level x i) (list_remove-head base a b l l' same e) in
        let head =
          ap {B = ℕ} (λ x. if get_offset base x level == i then 1 else 0) (==→eq a b same) in
        omega (arith, tail, head))
  | inr differ ↦
      (let (k, r, f) = list_remove-tail base a b l l' differ e in
        let rest = list_remove-pairs base level a i l k r in
        let whole = ap (λ x. pairs base level x i) f in omega (arith, rest, whole))
]

-- A member of a list is found and removed.
pub data Member (a : ℕ) : List ℕ → Type 0 where
  here : {l : List ℕ} → Member a (a ∷ l)
  there : {b : ℕ} {l : List ℕ} → Member a l → Member a (b ∷ l)

pub list_remove-found :
    {a : ℕ} {l : List ℕ}
    → Member a l
    → AreWords l
    → (l' : List ℕ) × (list_remove a l ≡ ok l') × AreWords l'
unfolding list_remove AreWords
list_remove-found {a} (here {l}) w = (l, rw (==_refl a) refl, w.1)
list_remove-found {a} (there {b} {l} m) w =
    let (l', e, w') = list_remove-found m w.1 in
    elim (Bool-cases (a == b)) [
      | inl same ↦ (l, rw (same) refl, w.1)
      | inr differ ↦ (b ∷ l', rw (differ, e) refl, (w.0, w'))
    ]

-- Where a pair has a block, one of its blocks is in the list.
pub pairs-Member :
    (base level i : ℕ) (l : List ℕ)
    → 0 < pairs base level l i
    → (a : ℕ) × Member a l × (get_offset base a level ≡ i)
unfolding pairs
pairs-Member base level i [] h = absurd (omega arith)
pairs-Member base level i (a ∷ l) h = elim (Bool-cases (get_offset base a level == i)) [
  | inl same ↦ (a, here, ==→eq (get_offset base a level) i same)
  | inr other ↦
      (let (b, m, e) = pairs-Member base level i l (ground (arith, h, other)) in (b, there m, e))
]
