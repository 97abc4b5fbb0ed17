-- ===== src/Alloc/PageMan/Buddy.antt =====
-- libs/mem-alloc/pageman.c: where the buddy and the joined block of a block lie.
use Prim.Native.Nat.{bit_and, bit_xor}
use native.Mathlib.Nat.{
  mul-le-mul_right, mul-mod_left, div-add-mod', one-le-pow, mul-div_left, div-eq_of_lt-le,
  div-div-eq-div-mul,
}
use saki_os.Base.Bits.{bit_xor-two_pow, bit_and-two_pow, every_below, every_below_at}
use saki_os.Base.{
  ℕ, suc, ◌+◌, ◌-◌, ◌*◌, ◌/◌, ◌%◌, ◌^◌, ◌≤◌, ◌<◌, ◌≡◌, ◌⊎◌, inl, inr, refl, ap, sym, ◌∙◌,
  Bool-cases, ◌==◌, ==→eq, leb, arith,
}
use saki_os.Alloc.PageMan.{block_size, offset, get_buddy, get_super}

next_multiple : (h c t : ℕ) → h * t < c * t → h * t + t ≤ c * t
next_multiple h c t lt = elim (Bool-cases (leb c h)) [
  | inl e ↦
      let le = mul-le-mul_right {m = c} {n = h} t (ground (arith, e)) in
      absurd (omega (arith, le, lt))
  | inr e ↦ let le = mul-le-mul_right {m = suc h} {n = c} t (ground (arith, e)) in omega (arith, le)
]

block_size-two_pow : (level : ℕ) → level < 19 → block_size level ≡ 2 ^ (level + 12)
block_size-two_pow level h =
    ==→eq (block_size level) (2 ^ (level + 12))
      (every_below_at 19 (λ l. block_size l == 2 ^ (l + 12)) level (unfold every_below in refl) h)

-- two blocks of a level divide the 4 GiB that a pointer reaches
address_space :
    (level : ℕ) → level < 18 → 2 ^ 32 / (2 * block_size level) * (2 * block_size level) ≡ 2 ^ 32
address_space level h = ==→eq (2 ^ 32 / (2 * block_size level) * (2 * block_size level)) (2 ^ 32) (
    every_below_at 18 (λ l. 2 ^ 32 / (2 * block_size l) * (2 * block_size l) == 2 ^ 32) level
      (unfold every_below in refl) h)

-- An aligned offset is a multiple of twice the size, or one size above such a multiple.
parity :
    (o p : ℕ)
    → o % p ≡ 0
    → ((o / p % 2 ≡ 0) × (o ≡ o / p / 2 * (2 * p)))
      ⊎ ((o / p % 2 ≡ 1) × (o ≡ o / p / 2 * (2 * p) + p))
parity o p z =
    let whole = div-add-mod' o p in
    elim (Bool-cases (o / p % 2 == 0)) [
      | inl e ↦
          let j : o / p ≡ o / p / 2 * 2 = ground (arith, e) in
          inl (ground (arith, e), omega (arith, whole, z, ap (λ (t : ℕ). t * p) j))
      | inr e ↦
          let j : o / p ≡ o / p / 2 * 2 + 1 = ground (arith, e) in
          inr (ground (arith, e), omega (arith, whole, z, ap (λ (t : ℕ). t * p) j))
    ]

-- Of an aligned block at the offset `o`, the buddy at `ob` and the joined block at `os`.
pub record Joined (p o ob os : ℕ) : Type 0 where
  pub sides : ((ob ≡ o + p) × (os ≡ o)) ⊎ ((o ≡ ob + p) × (os ≡ ob))
  pub aligned : os % (2 * p) ≡ 0
  pub inside : os + 2 * p ≤ 2 ^ 32

offset_back : (base x : ℕ) → base < 2 ^ 32 → x < 2 ^ 32 → offset base ((x + base) % 2 ^ 32) ≡ x
offset_back base x hb hx = omega arith

halves-Joined :
    (p o x a : ℕ)
    → o % p ≡ 0
    → o < 2 ^ 32
    → 2 ^ 32 / (2 * p) * (2 * p) ≡ 2 ^ 32
    → x + 2 * (o / p % 2 * p) ≡ o + p
    → a ≡ o / p % 2 * p
    → Joined p o x (o - a)
halves-Joined p o x a al lt space xor and =
    let h = o / p / 2 in
    let c = 2 ^ 32 / (2 * p) in
    elim (parity o p al) [
      | inl (b, e) ↦
          let zero_and : o / p % 2 * p ≡ 0 = ap (λ (t : ℕ). t * p) b ∙ (omega arith) in
          let os : o - a ≡ h * (2 * p) = omega (arith, and, zero_and, e) in
          record {
            sides = inl (omega (arith, xor, zero_and), omega (arith, and, zero_and));
            aligned = rw os (mul-mod_left h (2 * p));
            inside =
                omega (arith, os, next_multiple h c (2 * p) (omega (arith, e, space, lt)), space);
          }
      | inr (b, e) ↦
          let one_and : o / p % 2 * p ≡ p = ap (λ (t : ℕ). t * p) b ∙ (omega arith) in
          let os : o - a ≡ h * (2 * p) = omega (arith, and, one_and, e) in
          record {
            sides = inr (omega (arith, xor, one_and), omega (arith, xor, and, one_and));
            aligned = rw os (mul-mod_left h (2 * p));
            inside =
                omega (arith, os, next_multiple h c (2 * p) (omega (arith, e, space, lt)), space);
          }
    ]

pub buddy-inside : {p o ob os : ℕ} → Joined p o ob os → 0 < p → ob < 2 ^ 32
buddy-inside {p} {o} {ob} {os} j pos =
    let i = j.inside in
    elim j.sides [ inl s ↦ omega (arith, i, s.0, s.1) | inr s ↦ omega (arith, i, s.0, s.1) ]

-- The buddy of an aligned block and the block joined of both, in front of the address 2 ^ 32.
pub get_super-Joined :
    (base addr level : ℕ)
    → level < 18
    → base < 2 ^ 32
    → offset base addr % block_size level ≡ 0
    → Joined
        (block_size level)
        (offset base addr)
        (offset base (get_buddy base addr level))
        (offset base (get_super base addr level))
unfolding get_buddy get_super
get_super-Joined base addr level h hb al =
    let o = offset base addr in
    let p = block_size level in
    let q = block_size-two_pow level (omega arith) in
    let xor : bit_xor o p + 2 * (o / p % 2 * p) ≡ o + p = rw q (bit_xor-two_pow (level + 12) o) in
    let and : bit_and o p ≡ o / p % 2 * p = rw q (bit_and-two_pow (level + 12) o) in
    let pos : 0 < p = rw q (one-le-pow (level + 12) 2 (omega arith)) in
    let j =
      halves-Joined p o (bit_xor o p) (bit_and o p) al (omega arith) (address_space level h) xor
        and in
    let i = j.inside in
    rw
      (
        offset_back base (bit_xor o p) hb (buddy-inside j pos),
        offset_back base (o - bit_and o p) hb (omega (arith, pos, i)),
      )
      j

multiple : (o t : ℕ) → o % t ≡ 0 → o ≡ o / t * t
multiple o t z = omega (arith, div-add-mod' o t, z)

-- a block of the next level is aligned
pub lower-aligned : (o p : ℕ) → o % (2 * p) ≡ 0 → (o % p ≡ 0) × ((o + p) % p ≡ 0)
lower-aligned o p z =
    let a = o / (2 * p) in
    let m = multiple o (2 * p) z in
    let e : o ≡ 2 * a * p = omega (arith, m) in
    let f : o + p ≡ (2 * a + 1) * p = omega (arith, m) in
    (ap (λ t. t % p) e ∙ mul-mod_left (2 * a) p, ap (λ t. t % p) f ∙ mul-mod_left (2 * a + 1) p)

-- the buddy of the lower half is the upper half
pub upper_half : {p o ob os : ℕ} → 0 < p → o % (2 * p) ≡ 0 → Joined p o ob os → ob ≡ o + p
upper_half {p} {o} {ob} {os} pos z j = elim j.sides [
  | inl s ↦ s.0
  | inr s ↦
      let m = multiple o (2 * p) z in
      let n = multiple os (2 * p) j.aligned in
      let lt =
        next_multiple (os / (2 * p)) (o / (2 * p)) (2 * p) (omega (arith, m, n, s.0, s.1, pos)) in
      absurd (omega (arith, m, n, lt, s.0, s.1, pos))
]

pub block_size-pos : (level : ℕ) → level < 19 → 0 < block_size level
block_size-pos level h = rw (block_size-two_pow level h) (one-le-pow (level + 12) 2 (omega arith))

-- the number of a pair of blocks, by the offset of either
pair_of_lower : (p h : ℕ) → 0 < p → h * (2 * p) / (2 * p) ≡ h
pair_of_lower p h pos = mul-div_left h (omega (arith, pos))

pair_of_upper : (p h : ℕ) → 0 < p → (h * (2 * p) + p) / (2 * p) ≡ h
pair_of_upper p h pos = div-eq_of_lt-le {k = h} (2 * p) (omega arith) (omega (arith, pos))

-- both blocks of a pair have its number
pub pair_of_super : {p o ob os : ℕ} → 0 < p → Joined p o ob os → o / (2 * p) ≡ os / (2 * p)
pair_of_super {p} {o} {ob} {os} pos j =
    let h = os / (2 * p) in
    let m = multiple os (2 * p) j.aligned in
    elim j.sides [
      | inl s ↦ ap (λ t. t / (2 * p)) (sym s.1)
      | inr s ↦ ap (λ t. t / (2 * p)) (s.0 ∙ ap (λ t. t + p) (sym s.1 ∙ m)) ∙ pair_of_upper p h pos
    ]

-- An aligned block of the same pair is the block or its buddy.
pub siblings :
    {p o ob os : ℕ} (x : ℕ)
    → 0 < p
    → Joined p o ob os
    → x % p ≡ 0
    → x / (2 * p) ≡ o / (2 * p)
    → (x ≡ o) ⊎ (x ≡ ob)
siblings {p} {o} {ob} {os} x pos j al same =
    let m = multiple os (2 * p) j.aligned in
    let n : x / p / 2 ≡ os / (2 * p) =
      div-div-eq-div-mul x p 2 ∙ ap (λ t. x / t) (omega arith) ∙ same ∙ pair_of_super pos j in
    let q : x / p / 2 * (2 * p) ≡ os = ap (λ t. t * (2 * p)) n ∙ sym m in
    elim (parity x p al) [
      | inl a ↦ elim j.sides [
        | inl s ↦ inl (omega (arith, a.1, q, s.1))
        | inr s ↦ inr (omega (arith, a.1, q, s.1))
      ]
      | inr a ↦ elim j.sides [
        | inl s ↦ inr (omega (arith, a.1, q, s.1, s.0))
        | inr s ↦ inl (omega (arith, a.1, q, s.1, s.0))
      ]
    ]
