-- ===== src/Alloc/PageMan/Moves.antt =====
-- libs/mem-alloc/pageman.c: the third loop of `pageman_freeBlock`, and what one round of it does.
use native.Mathlib.Nat.{mul-mod_left}
use saki_os.Base.{
  ℕ, zero, suc, ◌+◌, ◌-◌, ◌%◌, ◌^◌, ◌≤◌, ◌<◌, ◌≡◌, ◌∙◌, refl, sym, ap, subst, leb, ok, ok-injective,
  bind-ok, Bool-cases, inl, inr, arith,
}
use saki_os.Alloc.PageMan.{page_size, total_level, block_size, offset, pageman_free}
use saki_os.Alloc.PageMan.Cover.{holds}
use saki_os.Alloc.PageMan.Conserve.{IsValid, free_at, block_size-suc, pageman_free-Freed}
use saki_os.Alloc.PageMan.Create.{Region, free_piece, free_descending}
use saki_os.Alloc.PageMan.Blocks.{Multiple, lower, raise_by, same_size}

-- The region has moved on, and the bytes passed are free in addition.
pub record Moved (r r' : Region) : Type 0 where
  pub valid : IsValid r'.man
  pub base : r'.man.base ≡ r.man.base
  pub from : r.off ≤ r'.off
  pub end : r'.off + r'.size ≡ r.off + r.size
  pub pages : (r'.off - r.off) % page_size ≡ 0
  pub free : (q : ℕ) → free_at r'.man q ≡ free_at r.man q + holds (r'.off - r.off) r.off q

pub Moved-refl : (r : Region) → IsValid r.man → Moved r r
Moved-refl r v = record {
  valid = v;
  base = refl;
  from = omega arith;
  end = refl;
  pages = omega arith;
  free = λ q. ground arith;
}

pub Moved-trans : {r s t : Region} → Moved r s → Moved s t → Moved r t
Moved-trans a b = record {
  valid = b.valid;
  base = b.base ∙ a.base;
  from = omega (arith, a.from, b.from);
  end = b.end ∙ a.end;
  pages = omega (arith, a.pages, b.pages, a.from, b.from);
  free = λ q. ground (arith, a.free q, b.free q, a.from, b.from);
}

pub free_piece-Moved :
    (level : ℕ) (r r' : Region)
    → level < total_level
    → IsValid r.man
    → r.off + r.size < 2 ^ 32
    → block_size level ≤ r.size
    → Multiple r.off (block_size level)
    → free_piece level r ≡ ok r'
    → Moved r r' × (r'.off ≡ r.off + block_size level) × (r'.size ≡ r.size - block_size level)
unfolding free_piece
free_piece-Moved level r r' h v room fits (n, al) e =
    let addr = (r.man.base + r.off) % 2 ^ 32 in
    let (man, f, g) =
      bind-ok (pageman_free r.man addr level)
        (λ man. ok (record {
          man = man;
          off = (r.off + block_size level) % 2 ^ 32;
          size = r.size - block_size level;
        }))
        e in
    let at : offset r.man.base addr ≡ r.off = omega (arith, v.base, room) in
    let aligned = ap (λ t. t % block_size level) (at ∙ al) ∙ mul-mod_left n (block_size level) in
    let freed = pageman_free-Freed r.man addr level man h v aligned f in
    let same = ok-injective g in
    let off = ap (λ (t : Region). t.off) same in
    let size = ap (λ (t : Region). t.size) same in
    let o : r'.off ≡ r.off + block_size level = omega (arith, off, room, fits) in
    (
      record {
        valid = subst (λ (t : Region). IsValid t.man) same freed.valid;
        base = subst (λ (t : Region). t.man.base ≡ r.man.base) same freed.base;
        from = omega (arith, o);
        end = omega (arith, o, size, fits);
        pages = omega (arith, o);
        free = λ q.
            let f = freed.free q in
            let m = ap (λ (t : Region). free_at t.man q) same in
            let a = ap (λ t. holds (block_size level) t q) at in ground (arith, f, m, a, o);
      },
      o,
      sym size,
    )

free_piece-size :
    (level : ℕ) (r s : Region) → free_piece level r ≡ ok s → s.size ≡ r.size - block_size level
unfolding free_piece
free_piece-size level r s e =
    let (man, f, g) =
      bind-ok (pageman_free r.man ((r.man.base + r.off) % 2 ^ 32) level)
        (λ man. ok (record {
          man = man;
          off = (r.off + block_size level) % 2 ^ 32;
          size = r.size - block_size level;
        }))
        e in
    sym (ap (λ (t : Region). t.size) (ok-injective g))

-- less than a page is left
pub free_descending-size :
    (level : ℕ) (r s : Region)
    → r.size < block_size level
    → free_descending level r ≡ ok s
    → s.size < page_size
unfolding free_descending
free_descending-size zero r s h e =
    let same = ap (λ (t : Region). t.size) (ok-injective e) in omega (arith, h, same)
free_descending-size (suc level) r s h e =
    let twice = same_size {a = suc level} {b = level + 1} (omega arith) ∙ block_size-suc level in
    elim (Bool-cases (leb (block_size level) r.size)) [
      | inr small ↦ free_descending-size level r s (ground (arith, small)) (rw small at e)
      | inl large ↦
          (let (t, f, g) =
              bind-ok (free_piece level r) (λ t. free_descending level t) (rw large at e) in
            let size = free_piece-size level r t f in
            free_descending-size level t s
              (omega (arith, size, h, twice, raise_by 0 level level (omega arith))) g)
    ]

-- Each block below a level that fits in the region fits at its start.
abbrev pub Fits : ℕ → Region → Type 0
Fits level r = (k : ℕ) → k < level → block_size k ≤ r.size → Multiple r.off (block_size k)

pub free_descending-Moved :
    (level : ℕ) (r r' : Region)
    → level ≤ total_level
    → IsValid r.man
    → r.off + r.size < 2 ^ 32
    → Fits level r
    → free_descending level r ≡ ok r'
    → Moved r r'
unfolding free_descending
free_descending-Moved zero r r' h v room fits e =
    subst (λ t. Moved r t) (ok-injective e) (Moved-refl r v)
free_descending-Moved (suc level) r r' h v room fits e =
    elim (Bool-cases (leb (block_size level) r.size)) [
      | inr small ↦
          free_descending-Moved level r r' (omega (arith, h)) v room
            (λ k below some. fits k (omega (arith, below)) some) (rw small at e)
      | inl large ↦
          (let enough : block_size level ≤ r.size = ground (arith, large) in
            let (s, f, g) =
              bind-ok (free_piece level r) (λ s. free_descending level s) (rw large at e) in
            let (n, start) = fits level (omega arith) enough in
            let (moved, off, size) =
              free_piece-Moved level r s (omega (arith, h)) v room enough (n, start) f in
            Moved-trans moved (
              free_descending-Moved level s r' (omega (arith, h)) moved.valid
                (omega (arith, moved.end, room))
                (λ k below some.
                  lower k level (omega (arith, below)) (n + 1, omega (arith, off, start)))
                g))
    ]
