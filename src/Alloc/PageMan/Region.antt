-- ===== src/Alloc/PageMan/Region.antt =====
-- libs/mem-alloc/pageman.c: what `pageman_freeBlock` and `pageman_create` make free.
use saki_os.Base.{
  fault, Fault, assertion, Result, Bool-cases, inl, inr, ℕ, ◌+◌, ◌-◌, ◌*◌, ◌/◌, ◌%◌, ◌^◌, ◌≤◌, ◌<◌,
  ◌≡◌, ◌∙◌, refl, sym, ap, subst, false, ok, ok-injective, bind-ok, Bool-cases, inl, inr, ◌>>=◌,
  arith, [], replicate, Result,
}
use saki_os.Base.Align.{align_to, align_down}
use saki_os.Alloc.PageMan.{PageMan, page_size, total_level, block_size, offset}
use saki_os.Alloc.PageMan.Cover.{holds}
use saki_os.Alloc.PageMan.Conserve.{IsValid, free_at}
use saki_os.Alloc.PageMan.Create.{
  Region, free_ascending, free_whole, free_descending, pageman_free_block,
}
use saki_os.Alloc.PageMan.Moves.{Moved-trans, free_descending-Moved, free_descending-size}
use saki_os.Alloc.PageMan.Rises.{Rising-Fits, free_ascending-Moved, free_whole-nothing}

-- What `pageman_freeBlock` adds.
pub record Added (man : PageMan) (off size : ℕ) (man' : PageMan) : Type 0 where
  pub valid : IsValid man'
  pub free : (q : ℕ) → free_at man' q ≡ free_at man q + holds size off q

-- On a valid manager whose base is on a page, when `pageman_freeBlock` returns, the manager is valid,
-- and exactly the bytes of the region have become free, its start moved up to a page and its size down
-- to whole pages: the blocks it is cut into are aligned and leave nothing out. The region ends below
-- 4 GiB from the base on.
pub pageman_free_block-Added :
    (man : PageMan) (addr size : ℕ) (man' : PageMan)
    → IsValid man
    → man.base % page_size ≡ 0
    → offset man.base (align_to addr page_size) + align_down size page_size < 2 ^ 32
    → pageman_free_block man addr size ≡ ok man'
    → Added man (offset man.base (align_to addr page_size)) (align_down size page_size) man'
unfolding pageman_free_block
pageman_free_block-Added man addr size man' v page room e =
    let r : Region = record {
      man = man;
      off = offset man.base (align_to addr page_size);
      size = align_down size page_size;
    } in
    let (s, f, f') =
      bind-ok (free_ascending (total_level + 1) r)
        (λ s. free_whole 5 s >>= λ t. free_descending total_level t >>= λ u. ok u.man) e in
    let (t, g, g') =
      bind-ok (free_whole 5 s) (λ t. free_descending total_level t >>= λ u. ok u.man) f' in
    let (u, k, k') = bind-ok (free_descending total_level t) (λ u. ok u.man) g' in
    let start : r.off ≡ r.off / 4096 * block_size 0 = omega (arith, page, v.base) in
    let (up, rising) =
      free_ascending-Moved 19 0 r s refl v room (0, omega arith, (r.off / 4096, start), inl refl)
        f in
    let (nothing, small) = free_whole-nothing 5 s t g in
    let k = subst (λ x. free_descending total_level x ≡ ok u) nothing k in
    let fall =
      free_descending-Moved total_level s u (omega arith) up.valid (omega (arith, up.end, room))
        (Rising-Fits s rising) k in
    let all = Moved-trans up fall in
    let rest = free_descending-size total_level s u small k in
    let same = ok-injective k' in
    let whole : u.off - r.off ≡ r.size = omega (arith, all.end, all.pages, all.from, rest) in
    record {
      valid = subst (λ m. IsValid m) same all.valid;
      free = λ q.
          ap (λ m. free_at m q) (sym same)
          ∙ all.free q
          ∙ ap (λ n. free_at man q + holds n r.off q) whole;
    }

-- the manager before `pageman_freeBlock`
abbrev fresh : ℕ → ℕ → PageMan
fresh base limit = record {
  bitmaps = λ level i. false;
  lists = replicate total_level [];
  base = base;
  limit = limit;
  spare = 0;
}

-- With the first `cost` pages of the block the manager's own, the bytes behind them are free, and no
-- others.
pub record Created (base cost first_aval first_size : ℕ) (man : PageMan) : Type 0 where
  pub valid : IsValid man
  pub fits : cost ≤ first_size
  pub free :
      (q : ℕ)
      → free_at man q
        ≡ holds ((first_size - cost) * page_size) (first_aval + page_size * cost - base) q

-- what `pageman_create` ends with
pub data Creation (base cost first_aval first_size : ℕ) : Result PageMan → Type 0 where
  too_small : first_size < cost → Creation base cost first_aval first_size (fault assertion)
  failed : {f : Fault} → cost ≤ first_size → Creation base cost first_aval first_size (fault f)
  created :
      {man : PageMan}
      → Created base cost first_aval first_size man
      → Creation base cost first_aval first_size (ok man)
