-- ===== src/Alloc/PageMan/Blocks.antt =====
-- libs/mem-alloc/pageman.c: multiples of the blocks of the levels.
use saki_os.Base.{
  ℕ, zero, suc, ◌+◌, ◌-◌, ◌*◌, ◌≤◌, ◌<◌, ◌≡◌, ◌∙◌, refl, ap, inl, inr, le_cases, arith,
}
use saki_os.Alloc.PageMan.{block_size}
use saki_os.Alloc.PageMan.Conserve.{block_size-suc}

abbrev pub Multiple : ℕ → ℕ → Type 0
Multiple o p = (n : ℕ) × (o ≡ n * p)

pub same_size : {a b : ℕ} → a ≡ b → block_size a ≡ block_size b
same_size e = ap (λ t. block_size t) e

lower_by : (o k d m : ℕ) → k + d ≡ m → Multiple o (block_size m) → Multiple o (block_size k)
lower_by o k zero m h (n, e) =
    (n, e ∙ ap (λ t. n * t) (same_size {a = m} {b = k} (omega (arith, h))))
lower_by o k (suc d) m h (n, e) =
    let up = same_size {a = m} {b = k + d + 1} (omega (arith, h)) in
    let product = ap (λ t. n * t) (up ∙ block_size-suc (k + d)) in
    lower_by o k d (k + d) refl (2 * n, omega (arith, e, product))

pub lower : {o : ℕ} (k m : ℕ) → k ≤ m → Multiple o (block_size m) → Multiple o (block_size k)
lower {o} k m h x = lower_by o k (m - k) m (omega (arith, h)) x

pub raise_by : (k d m : ℕ) → k + d ≡ m → block_size k ≤ block_size m
raise_by k zero m h = let same = same_size {a = m} {b = k} (omega (arith, h)) in omega (arith, same)
raise_by k (suc d) m h =
    let up = same_size {a = m} {b = k + d + 1} (omega (arith, h)) ∙ block_size-suc (k + d) in
    omega (arith, raise_by k d (k + d) refl, up)

pub below_of : (k m s : ℕ) → block_size k ≤ s → s < block_size m → k ≤ m
below_of k m s h g = elim (le_cases k m) [
  | inl less ↦ omega (arith, less)
  | inr le ↦ (let up = raise_by m (k - m) k (omega (arith, le)) in absurd (omega (arith, h, g, up)))
]
