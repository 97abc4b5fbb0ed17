-- ===== src/Alloc/PageMan/Release.antt =====
-- libs/mem-alloc/pageman.c: releasing a block that is not free returns.
use native.Mathlib.Nat.{div-div-eq-div-mul}
use saki_os.Base.{
  ℕ, zero, suc, ◌+◌, ◌-◌, ◌*◌, ◌/◌, ◌%◌, ◌^◌, ◌≤◌, ◌<◌, ◌≡◌, ◌∙◌, refl, sym, ap, subst, true, false,
  List, [], ◌==◌, if◌then◌else◌, get_or, set, length, length-set, ok, Bool-cases, inl, inr, ==→eq,
  arith,
}
use saki_os.Base.Bits.{every_below, every_below_at}
use saki_os.Alloc.PageMan.{
  PageMan, total_level, block_size, offset, get_offset, get_buddy, get_super, list_remove, free_up,
  pageman_free,
}
use saki_os.Alloc.PageMan.Buddy.{get_super-Joined, siblings, pair_of_super, block_size-pos}
use saki_os.Alloc.PageMan.Cover.{
  holds, Joined-holds, count, cover-set, AreAligned, list_remove-count, list_remove-AreAligned,
}
use saki_os.Alloc.PageMan.Conserve.{
  IsValid, IsAligned, free_at, stored-AreAligned, block_size-suc, pageman_free-Freed,
}
use saki_os.Alloc.PageMan.Marks.{
  IsMarked, AreWords, pairs, switched, switched-IsMarked, pairs-taken, list_remove-pairs,
  list_remove-found, pairs-Member, Member, here, there,
}
use saki_os.Alloc.PageMan.Returns.{free_clear, pageman_free-free_up, get_buddy-word}

-- No byte is in two free blocks.
abbrev pub IsDisjoint : PageMan → Type 0
IsDisjoint man = (q : ℕ) → free_at man q ≤ 1

-- No byte of the block is free.
abbrev pub IsTaken : PageMan → ℕ → ℕ → Type 0
IsTaken man addr level =
    (q : ℕ) → holds (block_size level) (offset man.base addr) q ≡ 1 → free_at man q ≡ 0

AreWords-Member : {a : ℕ} {l : List ℕ} → Member a l → AreWords l → a < 2 ^ 32
unfolding AreWords
AreWords-Member here w = w.0
AreWords-Member (there m) w = AreWords-Member m w.1

AreAligned-Member :
    (base level : ℕ) {a : ℕ} {l : List ℕ}
    → Member a l
    → AreAligned base level l
    → offset base a % block_size level ≡ 0
unfolding AreAligned
AreAligned-Member base level here w = w.0
AreAligned-Member base level (there m) w = AreAligned-Member base level m w.1

count-Member :
    (base level q : ℕ) {a : ℕ} {l : List ℕ}
    → Member a l
    → holds (block_size level) (offset base a) q ≤ count base level l q
unfolding count
count-Member base level q here = omega arith
count-Member base level q (there m) = omega (arith, count-Member base level q m)

-- the blocks of one list are among all
count-free_at :
    (man : PageMan) (level q : ℕ)
    → level < length man.lists
    → count man.base level (get_or man.lists level []) q ≤ free_at man q
count-free_at man level q h =
    let c = cover-set man.base 0 level level man.lists [] q (omega arith) h in
    let n : count man.base level [] q ≡ 0 = unfold count in refl in omega (arith, c, n)

get_offset-pair :
    (base addr level : ℕ) → get_offset base addr level ≡ offset base addr / (2 * block_size level)
unfolding get_offset
get_offset-pair base addr level =
    div-div-eq-div-mul (offset base addr) 4096 (2 ^ (level + 1))
    ∙ ap (λ t. offset base addr / t) (omega (arith, block_size-suc level))

-- the greatest block that holds a pair
top_pair :
    (base addr level : ℕ)
    → level < 18
    → get_offset base addr 17 ≡ offset base addr / (2 * block_size level) / 2 ^ (17 - level)
top_pair base addr level h =
    get_offset-pair base addr 17
    ∙ ap (λ t. offset base addr / t)
        (sym (
          ==→eq (2 * block_size level * 2 ^ (17 - level)) (2 * block_size 17) (
            every_below_at 18 (λ l. 2 * block_size l * 2 ^ (17 - l) == 2 * block_size 17) level
              (unfold every_below in refl) h)))
    ∙ sym (div-div-eq-div-mul (offset base addr) (2 * block_size level) (2 ^ (17 - level)))

same_word :
    (base a b : ℕ) → base < 2 ^ 32 → a < 2 ^ 32 → b < 2 ^ 32 → offset base a ≡ offset base b → a ≡ b
same_word base a b h ha hb e = omega (arith, e)

get_super-word : (base addr level : ℕ) → get_super base addr level < 2 ^ 32
unfolding get_super
get_super-word base addr level = omega arith

-- Where the bit is set and the block is not free, its buddy is.
buddy-Member :
    (man : PageMan) (addr level : ℕ)
    → level < 18
    → IsValid man
    → IsMarked man
    → IsAligned man addr level
    → IsTaken man addr level
    → man.bitmaps level (get_offset man.base addr level) ≡ true
    → Member (get_buddy man.base addr level) (get_or man.lists level [])
      × (get_offset man.base (get_buddy man.base addr level) level ≡ get_offset man.base addr level)
buddy-Member man addr level h v k al taken set =
    let list = get_or man.lists level [] in
    let index = get_offset man.base addr level in
    let o = offset man.base addr in
    let p = block_size level in
    let pos = block_size-pos level (omega arith) in
    let j = get_super-Joined man.base addr level h v.base al in
    let (a, m, e) =
      pairs-Member man.base level index list (ground (arith, k.marks level index h, set)) in
    let same = sym (get_offset-pair man.base a level) ∙ e ∙ get_offset-pair man.base addr level in
    elim (siblings (offset man.base a) pos j (AreAligned-Member man.base level m (v.aligned level))
      same) [
        | inl itself ↦ absurd (never a m itself pos)
        | inr other ↦
            (let b =
                same_word man.base a (get_buddy man.base addr level) v.base
                  (AreWords-Member m (k.words level)) (get_buddy-word man.base addr level) other in
              (subst (λ t. Member t list) b m, sym (ap (λ t. get_offset man.base t level) b) ∙ e))
      ]
  where
    never :
        (a : ℕ)
        → Member a (get_or man.lists level [])
        → offset man.base a ≡ offset man.base addr
        → 0 < block_size level
        → ⊥
    never a m e pos =
        let q = offset man.base addr in
        let t = taken q (ground (arith, pos)) in
        let c = count-Member man.base level q m in
        let d = count-free_at man level q (omega (arith, h, v.width)) in
        let f : holds (block_size level) (offset man.base a) q ≡ 1 = ground (arith, e, pos) in
        omega (arith, t, c, d, f)

module _ (man : PageMan) (addr level : ℕ) (h : level < 18) (v : IsValid man)
    (al : IsAligned man addr level) (list' : List ℕ)
    (r : list_remove (get_buddy man.base addr level) (get_or man.lists level []) ≡ ok list') where
  -- the manager without the buddy
  abbrev without : PageMan
  without =
      switched man level (get_offset man.base addr level) list'
        ((man.spare + 2 ^ 32 - block_size level) % 2 ^ 32)

  width_at : level < length man.lists
  width_at = omega (arith, h, v.width)

  without-IsValid : IsValid without
  without-IsValid = record {
    base = v.base;
    width = length-set man.lists level list' ∙ v.width;
    aligned = stored-AreAligned man.base man.lists level list' width_at v.aligned (
        list_remove-AreAligned man.base level (get_buddy man.base addr level)
          (get_or man.lists level []) list' r (v.aligned level));
  }

  free_at-without :
      (q : ℕ)
      → free_at without q
          + holds (block_size level) (offset man.base (get_buddy man.base addr level)) q
        ≡ free_at man q
  free_at-without q =
      let c = cover-set man.base 0 level level man.lists list' q (omega arith) width_at in
      let n =
        list_remove-count man.base level (get_buddy man.base addr level) (get_or man.lists level [])
          list' q r in
      omega (arith, c, n)

  without-IsDisjoint : IsDisjoint man → IsDisjoint without
  without-IsDisjoint d q = omega (arith, d q, free_at-without q)

  without-IsTaken :
      IsDisjoint man
      → IsTaken man addr level
      → IsTaken without (get_super man.base addr level) (level + 1)
  without-IsTaken d t q e =
      let j = get_super-Joined man.base addr level h v.base al in
      let b = Joined-holds j q in
      let c =
        ap (λ p. holds p (offset man.base (get_super man.base addr level)) q)
          (block_size-suc level) in
      let f = free_at-without q in
      let g = d q in
      elim (Bool-cases (holds (block_size level) (offset man.base addr) q == 1)) [
        | inl own ↦
            omega (arith, f, t q (==→eq (holds (block_size level) (offset man.base addr) q) 1 own))
        | inr buddy ↦ ground (arith, b, c, f, g, e, buddy)
      ]

  -- the pair of the greatest level stays the same
  without-top :
      level < 17
      → man.bitmaps 17 (get_offset man.base addr 17) ≡ false
      → without.bitmaps 17 (get_offset man.base (get_super man.base addr level) 17) ≡ false
  without-top k e =
      let j = get_super-Joined man.base addr level h v.base al in
      let same =
        top_pair man.base addr level h
        ∙ ap (λ t. t / 2 ^ (17 - level)) (pair_of_super (block_size-pos level (omega arith)) j)
        ∙ sym (top_pair man.base (get_super man.base addr level) level h) in
      let e' = ap (man.bitmaps 17) (sym same) ∙ e in
      let other : (17 == level) ≡ false = ground (arith, k) in rw (other) e'

free_up-Returns :
    (height : ℕ) (man : PageMan) (addr level : ℕ)
    → level + suc height ≡ total_level
    → addr < 2 ^ 32
    → IsValid man
    → IsMarked man
    → IsAligned man addr level
    → IsDisjoint man
    → IsTaken man addr level
    → man.bitmaps 17 (get_offset man.base addr 17) ≡ false
    → (man' : PageMan) × (free_up (suc height) man addr level ≡ ok man') × IsMarked man'
unfolding free_up
free_up-Returns zero man addr level h word v k al d t top =
    let last : level ≡ 17 = omega arith in
    let clear : man.bitmaps level (get_offset man.base addr level) ≡ false =
      subst (λ l. man.bitmaps l (get_offset man.base addr l) ≡ false) (sym last) top in
    let (e, k') = free_clear zero man addr level h v.width k word clear in (_, e, k')
free_up-Returns (suc height) man addr level h word v k al d t top =
    elim (Bool-cases (man.bitmaps level (get_offset man.base addr level))) [
      | inr clear ↦
          (let (e, k') = free_clear (suc height) man addr level h v.width k word clear in
            (_, e, k'))
      | inl taken ↦
          (let lt : level < 18 = omega arith in
            let (m, pair) = buddy-Member man addr level lt v k al t taken in
            let (list', r, w) = list_remove-found m (k.words level) in
            let j = get_super-Joined man.base addr level lt v.base al in
            let k' : IsMarked (without man addr level lt v al list' r) =
              switched-IsMarked man level (get_offset man.base addr level) list' _
                (width_at man addr level lt v al list' r) k w
                (λ i. pairs-taken man level addr i list' lt k taken (
                  list_remove-pairs man.base level (get_buddy man.base addr level) i
                    (get_or man.lists level []) list' r
                  ∙ ap {B = ℕ} (λ x. (if x == i then 1 else 0) + pairs man.base level list' i)
                      pair)) in
            let (man', run, k'') =
              free_up-Returns height (without man addr level lt v al list' r)
                (get_super man.base addr level) (level + 1) (omega arith)
                (get_super-word man.base addr level)
                (without-IsValid man addr level lt v al list' r) k'
                (ap (λ p. offset man.base (get_super man.base addr level) % p)
                    (block_size-suc level)
                  ∙ j.aligned)
                (without-IsDisjoint man addr level lt v al list' r d)
                (without-IsTaken man addr level lt v al list' r d t)
                (without-top man addr level lt v al list' r (omega arith) top) in
            (man', rw (taken, r) run, k''))
    ]

-- On a valid manager whose bits match its lists and whose blocks are disjoint, `pageman_free` of an
-- aligned block of which no byte is free returns, and the bits match again, unless a block of the
-- greatest level may be joined.
pub pageman_free-Returns :
    (man : PageMan) (addr level : ℕ)
    → level < total_level
    → addr < 2 ^ 32
    → IsValid man
    → IsMarked man
    → IsAligned man addr level
    → IsDisjoint man
    → IsTaken man addr level
    → man.bitmaps 17 (get_offset man.base addr 17) ≡ false
    → (man' : PageMan) × (pageman_free man addr level ≡ ok man') × IsMarked man' × IsDisjoint man'
pageman_free-Returns man addr level h word v k al d t top =
    let (man', run, k') =
      free_up-Returns (17 - level) man addr level (omega arith) word v k al d t top in
    let e = pageman_free-free_up (suc (17 - level)) man addr level (omega arith) ∙ run in
    let f = pageman_free-Freed man addr level man' h v al e in
    (man', e, k', λ q. ground (arith, f.free q, d q, t q))
