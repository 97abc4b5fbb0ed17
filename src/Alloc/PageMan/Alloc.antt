-- ===== src/Alloc/PageMan/Alloc.antt =====
-- libs/mem-alloc/pageman.c: `pageman_alloc` takes a free block.
use saki_os.Base.{
  ℕ, zero, suc, ◌+◌, ◌-◌, ◌*◌, ◌%◌, ◌^◌, ◌<◌, ◌≡◌, refl, ap, List, [], ◌∷◌, ◌∙◌, Option, none, some,
  length, length-set, get_or, set, ok, ok-injective, bind-ok, subst, sym, arith,
}
use saki_os.Alloc.PageMan.{
  PageMan, block_size, total_level, offset, pageman_free, alloc_down, pageman_alloc, get_buddy,
  get_offset, bitmap_switch, slice,
}
use saki_os.Alloc.PageMan.Buddy.{get_super-Joined, lower-aligned, upper_half, block_size-pos}
use saki_os.Alloc.PageMan.Conserve.{
  IsValid, IsAligned, free_at, pageman_free-Freed, stored-AreAligned, block_size-suc,
}
use saki_os.Alloc.PageMan.Cover.{holds, count, AreAligned, cover-set}

-- `man` has the block of the level at `addr` in addition to what `man'` has.
pub record Taken (man : PageMan) (addr level : ℕ) (man' : PageMan) : Type 0 where
  pub valid : IsValid man'
  pub base : man'.base ≡ man.base
  pub aligned : IsAligned man addr level
  pub free :
      (q : ℕ) → free_at man q ≡ free_at man' q + holds (block_size level) (offset man.base addr) q
  pub spare : man.spare % 2 ^ 32 ≡ (man'.spare + block_size level) % 2 ^ 32

-- NULL leaves the manager as it is.
unfoldable pub Answer : PageMan → ℕ → Option ℕ → PageMan → Type 0
Answer man level none man' = man' ≡ man
Answer man level (some addr) man' = Taken man addr level man'

first-Taken :
    (man : PageMan) (level first : ℕ) (rest : List ℕ)
    → level < total_level
    → IsValid man
    → get_or man.lists level [] ≡ first ∷ rest
    → Taken man first level (record man {
      bitmaps = bitmap_switch man.bitmaps level (get_offset man.base first level);
      spare = (man.spare + 2 ^ 32 - block_size level) % 2 ^ 32;
      lists = set man.lists level rest;
    })
first-Taken man level first rest h v e =
    let w = v.width in
    let here : level < length man.lists = omega (arith, w, h) in
    let al : AreAligned man.base level (first ∷ rest) =
      subst (AreAligned man.base level) e (v.aligned level) in
    record {
      valid = record {
        base = v.base;
        width = length-set man.lists level rest ∙ w;
        aligned =
            stored-AreAligned man.base man.lists level rest here v.aligned
              (unfold AreAligned in al.1);
      };
      base = refl;
      aligned = unfold AreAligned in al.0;
      free = λ q.
          let c = cover-set man.base 0 level level man.lists rest q (omega arith) here in
          let l = ap (λ t. count man.base level t q) e in
          let n : count man.base level (first ∷ rest) q
              ≡ holds (block_size level) (offset man.base first) q + count man.base level rest q =
            unfold count in refl in
          omega (arith, c, l, n);
      spare =
          let i =
            (get_super-Joined man.base first level h v.base (unfold AreAligned in al.0)).inside in
          omega (arith, i);
    }

split-Taken :
    (man man₁ man₂ : PageMan) (level addr : ℕ)
    → level < total_level
    → IsValid man
    → Taken man addr (level + 1) man₁
    → pageman_free man₁ (get_buddy man₁.base addr level) level ≡ ok man₂
    → Taken man addr level man₂
split-Taken man man₁ man₂ level addr h v t e =
    let p = block_size level in
    let o = offset man.base addr in
    let double = block_size-suc level in
    let even : o % (2 * p) ≡ 0 = ap (λ x. o % x) (sym double) ∙ t.aligned in
    let (al, al') = lower-aligned o p even in
    let same : offset man₁.base addr ≡ o = ap (λ x. offset x addr) t.base in
    let j = get_super-Joined man₁.base addr level h t.valid.base (rw same al) in
    let pos = block_size-pos level (omega arith) in
    let ob : offset man₁.base (get_buddy man₁.base addr level) ≡ o + p =
      upper_half pos (rw same even) j ∙ ap (λ x. x + p) same in
    let f =
      pageman_free-Freed man₁ (get_buddy man₁.base addr level) level man₂ h t.valid (rw ob al') e in
    let i = j.inside in
    record {
      valid = f.valid;
      base = f.base ∙ t.base;
      aligned = al;
      free = λ q.
          let a = t.free q in
          let b = f.free q in
          let c = ap (λ x. holds x o q) double in
          let d = ap (λ x. holds p x q) ob in
          let k : holds (2 * p) o q ≡ holds p o q + holds p (o + p) q = ground (arith, pos) in
          omega (arith, a, b, c, d, k);
      spare = let a = t.spare in let b = f.spare in omega (arith, a, b, double, i);
    }

alloc_down-Answer :
    (height : ℕ) (man : PageMan) (level : ℕ) (r : Option ℕ) (man' : PageMan)
    → level + height ≡ total_level
    → IsValid man
    → alloc_down height man level ≡ ok (r, man')
    → Answer man level r man'
unfolding alloc_down Answer
alloc_down-Answer zero man level r man' h v e =
    subst (λ x. Answer man level x.0 x.1) (ok-injective e) refl
alloc_down-Answer (suc height) man level r man' h v e =
    after_list (get_or man.lists level []) refl
      (λ r₁ man₁. alloc_down-Answer height man (level + 1) r₁ man₁ (omega arith) v)
  where
    after_split :
        (r₁ : Option ℕ) (man₁ : PageMan)
        → Answer man (level + 1) r₁ man₁
        → slice level (r₁, man₁) ≡ ok (r, man')
        → Answer man level r man'
    after_split none man₁ same q = subst (λ x. Answer man level x.0 x.1) (ok-injective q) same
    after_split (some addr) man₁ t q =
        let (man₂, f, g) =
          bind-ok (pageman_free man₁ (get_buddy man₁.base addr level) level)
            (λ man₂. ok (some addr, man₂)) q in
        subst (λ x. Answer man level x.0 x.1) (ok-injective g)
          (split-Taken man man₁ man₂ level addr (omega arith) v t f)

    after_list :
        (list : List ℕ)
        → get_or man.lists level [] ≡ list
        → ((r₁ : Option ℕ) (man₁ : PageMan)
            → alloc_down height man (level + 1) ≡ ok (r₁, man₁)
            → Answer man (level + 1) r₁ man₁)
        → Answer man level r man'
    after_list (first ∷ rest) q ih =
        subst (λ x. Answer man level x.0 x.1) (ok-injective (rw (alloc_down, q) at e))
          (first-Taken man level first rest (omega arith) v q)
    after_list [] q ih =
        let (x, f, g) =
          bind-ok (alloc_down height man (level + 1)) (slice level) (rw (alloc_down, q) at e) in
        after_split x.0 x.1 (ih x.0 x.1 f) g

-- With the level in reach, on a valid manager: when `pageman_alloc` returns a block, the block is
-- aligned, the valid manager that is left has every byte that it had but those of the block, and
-- `spare` is smaller by the size, up to the wrap at 32 bits. When it returns NULL, nothing changed.
pub pageman_alloc-Answer :
    (man : PageMan) (level : ℕ) (r : Option ℕ) (man' : PageMan)
    → level < total_level
    → IsValid man
    → pageman_alloc man level ≡ ok (r, man')
    → Answer man level r man'
unfolding pageman_alloc
pageman_alloc-Answer man level r man' h v e =
    alloc_down-Answer (total_level - level) man level r man' (omega arith) v e
