-- ===== src/Alloc/PageMan/Conserve.antt =====
-- libs/mem-alloc/pageman.c: no byte is lost or handed out twice.
use native.Mathlib.Nat.{pow-suc}
use saki_os.Base.{
  ℕ, zero, suc, ◌+◌, ◌-◌, ◌*◌, ◌%◌, ◌^◌, ◌<◌, ◌≡◌, refl, ap, List, [], ◌∷◌, ◌∙◌, ◌==◌, get_or, set,
  length, length-set, ok, ok-injective, bind-ok, subst, sym, inl, inr, Bool-cases, arith,
  get_or-set, ==→eq,
}
use saki_os.Alloc.PageMan.{
  PageMan, block_size, total_level, offset, list_remove, free_up, pageman_free, get_buddy,
  get_super, get_offset, bitmap_switch,
}
use saki_os.Alloc.PageMan.Buddy.{get_super-Joined}
use saki_os.Alloc.PageMan.Cover.{
  holds, Joined-holds, count, cover, AreAligned, list_remove-count, cover-set,
  list_remove-AreAligned,
}

pub record IsValid (man : PageMan) : Type 0 where
  pub base : man.base < 2 ^ 32
  pub width : length man.lists ≡ total_level
  pub aligned : (level : ℕ) → AreAligned man.base level (get_or man.lists level [])

-- the free blocks that hold the byte at an offset from `base`
abbrev pub free_at : PageMan → ℕ → ℕ
free_at man q = cover man.base 0 man.lists q

abbrev pub IsAligned : PageMan → ℕ → ℕ → Type 0
IsAligned man addr level = offset man.base addr % block_size level ≡ 0

-- `man'` has the block of the level at `addr` in addition to what `man` has.
pub record Freed (man : PageMan) (addr level : ℕ) (man' : PageMan) : Type 0 where
  pub valid : IsValid man'
  pub base : man'.base ≡ man.base
  pub free :
      (q : ℕ) → free_at man' q ≡ free_at man q + holds (block_size level) (offset man.base addr) q
  pub spare : man'.spare % 2 ^ 32 ≡ (man.spare + block_size level) % 2 ^ 32

-- the manager in front of the recursive call in `pageman_free`
abbrev merged : PageMan → ℕ → ℕ → List ℕ → PageMan
merged man level index list = record man {
  bitmaps = bitmap_switch man.bitmaps level index;
  spare = (man.spare + 2 ^ 32 - block_size level) % 2 ^ 32;
  lists = set man.lists level list;
}

pub stored-AreAligned :
    (base : ℕ) (ls : List (List ℕ)) (i : ℕ) (l : List ℕ)
    → i < length ls
    → ((level : ℕ) → AreAligned base level (get_or ls level []))
    → AreAligned base i l
    → (level : ℕ) → AreAligned base level (get_or (set ls i l) level [])
stored-AreAligned base ls i l h all al level = elim (Bool-cases (level == i)) [
  | inl e ↦
      rw (get_or-set ls i level l [] h, e)
        (subst (λ t. AreAligned base t l) (sym (==→eq level i e)) al)
  | inr e ↦ rw (get_or-set ls i level l [] h, e) (all level)
]

pub block_size-suc : (level : ℕ) → block_size (level + 1) ≡ 2 * block_size level
block_size-suc level =
    let next : 2 ^ (level + 1) ≡ 2 ^ suc level = ap (λ t. 2 ^ t) (omega arith) in
    omega (arith, pow-suc 2 level, next)

free_up-Freed :
    (height : ℕ) (man : PageMan) (addr level : ℕ) (man' : PageMan)
    → level + height ≡ total_level
    → IsValid man
    → IsAligned man addr level
    → free_up height man addr level ≡ ok man'
    → Freed man addr level man'
unfolding free_up
free_up-Freed zero man addr level man' h v al e = ground arith
free_up-Freed (suc height) man addr level man' h v al e =
    let list = get_or man.lists level [] in
    let index = get_offset man.base addr level in
    let w = v.width in
    let here : level < length man.lists = omega (arith, w, h) in
    elim (Bool-cases (man.bitmaps level index)) [
      | inr clear ↦
          let same = ok-injective (rw clear at e) in
          subst (Freed man addr level) same (record {
            valid = record {
              base = v.base;
              width = length-set man.lists level (addr ∷ list) ∙ w;
              aligned =
                  stored-AreAligned man.base man.lists level (addr ∷ list) here v.aligned
                    (unfold AreAligned in (al, v.aligned level));
            };
            base = refl;
            free = λ q.
                let c =
                  cover-set man.base 0 level level man.lists (addr ∷ list) q (omega arith) here in
                let n : count man.base level (addr ∷ list) q
                    ≡ holds (block_size level) (offset man.base addr) q
                      + count man.base level list q =
                  unfold count in refl in
                omega (arith, c, n);
            spare = omega arith;
          })
      | inl taken ↦
          let (list', r, f) =
            bind-ok (list_remove (get_buddy man.base addr level) list)
              (λ list'.
                free_up height (merged man level index list') (get_super man.base addr level)
                  (level + 1))
              (rw taken at e) in
          let j = get_super-Joined man.base addr level (omega arith) v.base al in
          let double = block_size-suc level in
          let rest =
            free_up-Freed height (merged man level index list') (get_super man.base addr level)
              (level + 1) man' (omega arith)
              (record {
                base = v.base;
                width = length-set man.lists level list' ∙ w;
                aligned = stored-AreAligned man.base man.lists level list' here v.aligned (
                    list_remove-AreAligned man.base level (get_buddy man.base addr level) list list'
                      r (v.aligned level));
              })
              (rw double j.aligned) f in
          record {
            valid = rest.valid;
            base = rest.base;
            free = λ q.
                let c = cover-set man.base 0 level level man.lists list' q (omega arith) here in
                let n =
                  list_remove-count man.base level (get_buddy man.base addr level) list list' q r in
                let b = Joined-holds j q in
                let d =
                  ap (λ t. holds t (offset man.base (get_super man.base addr level)) q) double in
                omega (arith, c, n, b, d, rest.free q);
            spare = let i = j.inside in omega (arith, rest.spare, double, i);
          }
    ]

-- With the level in reach, on a valid manager: when `pageman_free` returns, the manager is valid, it
-- has the bytes of the block in addition to what it had, and `spare` has grown by its size, up to the
-- wrap at 32 bits.
pub pageman_free-Freed :
    (man : PageMan) (addr level : ℕ) (man' : PageMan)
    → level < total_level
    → IsValid man
    → IsAligned man addr level
    → pageman_free man addr level ≡ ok man'
    → Freed man addr level man'
unfolding pageman_free
pageman_free-Freed man addr level man' h v al e =
    free_up-Freed (total_level - level) man addr level man' (omega arith) v al e
