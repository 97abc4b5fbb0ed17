-- ===== src/Alloc/PageMan/Rises.antt =====
-- libs/mem-alloc/pageman.c: the first two loops of `pageman_freeBlock`.
use native.Mathlib.Nat.{mul-div_left}
use saki_os.Base.{
  ℕ, zero, suc, ◌+◌, ◌-◌, ◌*◌, ◌/◌, ◌%◌, ◌^◌, ◌≤◌, ◌<◌, ◌≡◌, ◌∙◌, ◌⊎◌, refl, ap, subst, ◌&&◌, ◌==◌,
  leb, if◌then◌else◌, ok, ok-injective, bind-ok, Bool-cases, inl, inr, le_cases, lt→leb, arith,
}
use saki_os.Alloc.PageMan.{total_level, block_size, pageman_free, free_up}
use saki_os.Alloc.PageMan.Buddy.{block_size-pos}
use saki_os.Alloc.PageMan.Conserve.{IsValid, block_size-suc}
use saki_os.Alloc.PageMan.Create.{Region, free_piece, free_ascending, free_whole}
use saki_os.Alloc.PageMan.Blocks.{Multiple, below_of, lower, raise_by}
use saki_os.Alloc.PageMan.Moves.{Fits, Moved, Moved-refl, Moved-trans, free_piece-Moved}

-- While the region goes up through the levels its start is a multiple of the level's block, until
-- what is left is smaller.
abbrev Rising : ℕ → Region → Type 0
Rising level r =
    (m : ℕ) × (m ≤ level) × Multiple r.off (block_size m) × ((m ≡ level) ⊎ (r.size < block_size m))

pub Rising-Fits : (r : Region) → Rising 19 r → Fits total_level r
Rising-Fits r (m, le, x, inl top) k below some = lower k m (omega (arith, top, below)) x
Rising-Fits r (m, le, x, inr small) k below some = lower k m (below_of k m r.size some small) x

pub free_whole-nothing :
    (rounds : ℕ) (r r' : Region)
    → free_whole rounds r ≡ ok r'
    → (r' ≡ r) × (r.size < block_size total_level)
unfolding free_whole pageman_free free_up
free_whole-nothing zero r r' e = absurd (ground (arith, e))
free_whole-nothing (suc rounds) r r' e = (ground (arith, e), ground (arith, e))

-- a multiple of a block is one of the block of the next level, or its number is odd
halves :
    (o level n : ℕ)
    → level < 19
    → o ≡ n * block_size level
    → n % 2 ≡ 0
    → Multiple o (block_size (level + 1))
halves o level n h e even =
    let product = ap (λ t. (n / 2) * t) (block_size-suc level) in
    let whole = ap (λ t. t * block_size level) {x = n} {y = 2 * (n / 2)} (omega (arith, even)) in
    (n / 2, omega (arith, e, product, whole))

number : (o level n : ℕ) → level < 19 → o ≡ n * block_size level → o / block_size level ≡ n
number o level n h e = ap (λ t. t / block_size level) e ∙ mul-div_left n (block_size-pos level h)

odd_rise :
    (level : ℕ) (r s : Region)
    → level < 19
    → IsValid r.man
    → r.off + r.size < 2 ^ 32
    → block_size level ≤ r.size
    → (n : ℕ) → r.off ≡ n * block_size level
    → n % 2 ≡ 1
    → free_piece level r ≡ ok s
    → Moved r s × Rising (level + 1) s
odd_rise level r s h v room fits n x odd e = elim (le_cases level 18) [
  | inl below ↦
      (let (moved, off, size) = free_piece-Moved level r s below v room fits (n, x) e in
        let up = halves s.off level (n + 1) h (omega (arith, off, x)) (omega (arith, odd)) in
        (moved, (level + 1, omega arith, up, inl refl)))
  | inr top ↦ absurd (
      unfold free_piece pageman_free free_up in
      ground
        (arith, subst (λ t. free_piece t r ≡ ok s) {x = level} {y = 18} (omega (arith, top, h)) e))
]

rise :
    (level : ℕ) (r s : Region)
    → level < 19
    → IsValid r.man
    → r.off + r.size < 2 ^ 32
    → Rising level r
    → (if r.off / block_size level % 2 == 1 && leb (block_size level) r.size
        then free_piece level r
        else ok r)
      ≡ ok s
    → Moved r s × Rising (level + 1) s
rise level r s h v room (m, le, x, inr small) e =
    let less = raise_by m (level - m) level (omega (arith, le)) in
    let over = lt→leb (block_size level) r.size (omega (arith, less, small)) in
    let same : r ≡ s = ground (arith, e, over) in
    subst (λ t. Moved r t × Rising (level + 1) t) same
      (Moved-refl r v, (m, omega (arith, le), x, inr small))
rise level r s h v room (m, le, x, inl here) e =
    let (n, y) = lower level m (omega (arith, here)) x in
    let index = number r.off level n h y in
    elim (Bool-cases (leb (block_size level) r.size)) [
      | inr small ↦
          (let same : r ≡ s = ground (arith, e, small) in
            subst (λ t. Moved r t × Rising (level + 1) t) same
              (Moved-refl r v, (level, omega arith, (n, y), inr (ground (arith, small)))))
      | inl large ↦ elim (Bool-cases (n % 2 == 1)) [
        | inl odd ↦
            odd_rise level r s h v room (ground (arith, large)) n y (ground (arith, odd))
              (rw (index, odd, large) at e)
        | inr even ↦
            (let same : r ≡ s = ok-injective (rw (index, even) at e) in
              let up = halves r.off level n h y (ground (arith, even)) in
              subst (λ t. Moved r t × Rising (level + 1) t) same
                (Moved-refl r v, (level + 1, omega arith, up, inl refl)))
      ]
    ]

pub free_ascending-Moved :
    (rounds level : ℕ) (r r' : Region)
    → level + rounds ≡ 19
    → IsValid r.man
    → r.off + r.size < 2 ^ 32
    → Rising level r
    → free_ascending rounds r ≡ ok r'
    → Moved r r' × Rising 19 r'
unfolding free_ascending
free_ascending-Moved zero level r r' h v room k e =
    subst (λ t. Moved r t × Rising 19 t) (ok-injective e)
      (Moved-refl r v, subst (λ t. Rising t r) {x = level} {y = 19} (omega (arith, h)) k)
free_ascending-Moved (suc rounds) level r r' h v room k e =
    let here : total_level - rounds ≡ level = omega (arith, h) in
    let (s, f, g) =
      bind-ok
        (if r.off / block_size level % 2 == 1 && leb (block_size level) r.size
          then free_piece level r
          else ok r)
        (λ s. free_ascending rounds s) (rw here at e) in
    let (moved, k') = rise level r s (omega (arith, h)) v room k f in
    let (rest, top) =
      free_ascending-Moved rounds (level + 1) s r' (omega (arith, h)) moved.valid
        (omega (arith, moved.end, room)) k' g in
    (Moved-trans moved rest, top)
