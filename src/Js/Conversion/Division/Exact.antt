-- ===== src/Js/Conversion/Division/Exact.antt =====
-- `div64` of libs/js/conversion.c: the division by shifts and that of the machine.
use native.Mathlib.Nat.{
  pow-succ', one-le-pow, pow-le-pow_right, le-mul_of_pos_right, add-mul-div_left,
  add-mul-mod_self_left, div-mul-le_self, div-eq_of_lt, mod-eq_of_lt,
}
use saki_os.Js.Conversion.Text.{div64}
use saki_os.Base.{
  ℕ, zero, suc, ◌+◌, ◌-◌, ◌*◌, ◌/◌, ◌%◌, ◌^◌, ◌≤◌, ◌<◌, ◌≡◌, ◌⊎◌, inl, inr, refl, ap, ap₂, sym,
  subst, ◌∙◌, Bool, true, false, ◌&&◌, ◌==◌, ltb, leb, if◌then◌else◌, ok, ◌>>=◌, arith, Bool-cases,
}
use saki_os.Js.Conversion.Division.{shift_up, shift_down, reduce, loops, div64_by_shifts}

-- what `shift_up` leaves
record Raised (base rem b d : ℕ) : Type 0 where
  k : ℕ
  power : d ≡ 2 ^ k
  multiple : b ≡ base * 2 ^ k
  small : b < 2 ^ 64
  covers : rem < 2 * b

double : (base k : ℕ) → base * 2 ^ suc k ≡ base * 2 ^ k + base * 2 ^ k
double base k = ap (λ x. base * x) (pow-succ' 2 k) ∙ omega arith

double_power : (k : ℕ) → 2 ^ suc k ≡ 2 ^ k + 2 ^ k
double_power k = pow-succ' 2 k ∙ omega arith

-- the condition of the loop of `shift_up`
goes_on : ℕ → ℕ → Bool
goes_on rem b = (ltb 0 b && ltb b (2 ^ 63)) && ltb b rem

goes_on-true : (rem b : ℕ) → goes_on rem b ≡ true → b < 2 ^ 63
unfolding goes_on
goes_on-true rem b e = ground (arith, e)

goes_on-false : (rem b : ℕ) → goes_on rem b ≡ false → 0 < b → rem < 2 ^ 64 → rem < 2 * b
unfolding goes_on
goes_on-false rem b e p r = ground (arith, e, p, r)

power_le : (base k : ℕ) → 0 < base → 2 ^ k ≤ base * 2 ^ k
power_le zero k p = absurd (omega arith)
power_le (suc base) k p = omega arith

mod-small : (n : ℕ) → n < 2 ^ 64 → n % 2 ^ 64 ≡ n
mod-small n h = omega (arith, h)

-- The powers of two that the loops meet.
exponent_small : (base k : ℕ) → 0 < base → base * 2 ^ k < 2 ^ 64 → k < 65
exponent_small base k p s = elim (le-or-lt 65 k) [
  | inl h ↦ absurd (omega (arith, pow-le-pow_right {n = 2} (omega arith) h, power_le base k p, s))
  | inr h ↦ h
]
  where
    le-or-lt : (m n : ℕ) → (m ≤ n) ⊎ (n < m)
    le-or-lt m n = elim (Bool-cases (leb m n)) [
      | inl e ↦ inl (ground (arith, e))
      | inr e ↦ inr (ground (arith, e))
    ]

shift_up-Raised :
    (base rem fuel k : ℕ)
    → 0 < base
    → rem < 2 ^ 64
    → base * 2 ^ k < 2 ^ 64
    → 65 ≤ fuel + k
    → (b d : ℕ) × (shift_up fuel rem (base * 2 ^ k) (2 ^ k) ≡ ok (b, d)) × Raised base rem b d
unfolding shift_up goes_on
shift_up-Raised base rem zero k p r s f = absurd (omega (arith, f, exponent_small base k p s))
shift_up-Raised base rem (suc fuel) k p r s f = elim (Bool-cases (goes_on rem (base * 2 ^ k))) [
  | inl e ↦
      let below : base * 2 ^ k < 2 ^ 63 = goes_on-true rem (base * 2 ^ k) e in
      let fits : base * 2 ^ suc k < 2 ^ 64 = omega (arith, double base k, below) in
      let (b, d, runs, raised) =
        shift_up-Raised base rem fuel (suc k) p r fits (omega (arith, f)) in
      let next_b : (base * 2 ^ k + base * 2 ^ k) % 2 ^ 64 ≡ base * 2 ^ suc k =
        mod-small _ (omega (arith, below)) ∙ sym (double base k) in
      let next_d : (2 ^ k + 2 ^ k) % 2 ^ 64 ≡ 2 ^ suc k =
        mod-small _ (omega (arith, below, power_le base k p)) ∙ sym (double_power k) in
      (b, d, rw (e, next_b, next_d) runs, raised)
  | inr e ↦ (
    base * 2 ^ k,
    2 ^ k,
    rw e refl,
    record {
      k = k;
      power = refl;
      multiple = refl;
      small = s;
      covers =
          goes_on-false rem (base * 2 ^ k) e
            (omega (arith, power_le base k p, one-le-pow k 2 (omega arith))) r;
    },
  )
]

-- a round of `shift_down`, on the numbers
rem_after : ℕ → ℕ → ℕ
rem_after b rem = if leb b rem then rem - b else rem

res_after : ℕ → ℕ → ℕ → ℕ → ℕ
res_after b d rem res = if leb b rem then (res + d) % 2 ^ 64 else res

res_fits :
    (base d rem res T : ℕ)
    → 0 < base
    → base * d ≤ rem
    → res * base + rem ≡ T
    → T < 2 ^ 64
    → res + d < 2 ^ 64
res_fits zero d rem res T p h e t = absurd (omega arith)
res_fits (suc base) d rem res T p h e t =
    let sum : (res + d) * suc base ≤ T = omega (arith, h, e) in
    omega (arith, sum, t, le-mul_of_pos_right {m = suc base} (res + d) (omega arith))

round_sum :
    (base d rem res T : ℕ)
    → 0 < base
    → res * base + rem ≡ T
    → T < 2 ^ 64
    → res_after (base * d) d rem res * base + rem_after (base * d) rem ≡ T
unfolding rem_after res_after
round_sum base d rem res T p e t = elim (Bool-cases (leb (base * d) rem)) [
  | inl h ↦
      let le : base * d ≤ rem = ground (arith, h) in
      rw (h, mod-small (res + d) (res_fits base d rem res T p le e t)) (omega (arith, le, e))
  | inr h ↦ rw h e
]

round_small : (b rem : ℕ) → rem < 2 * b → rem_after b rem < b
unfolding rem_after
round_small b rem h = ground (arith, h)

round_goes_on :
    (base k fuel rem res : ℕ)
    → shift_down (suc fuel) (base * 2 ^ suc k) (2 ^ suc k) rem res
      ≡ shift_down fuel
          (base * 2 ^ k)
          (2 ^ k)
          (rem_after (base * 2 ^ suc k) rem)
          (res_after (base * 2 ^ suc k) (2 ^ suc k) rem res)
unfolding shift_down rem_after res_after
round_goes_on base k fuel rem res =
    let half_b : base * 2 ^ suc k / 2 ≡ base * 2 ^ k = omega (arith, double base k) in
    let half_d : 2 ^ suc k / 2 ≡ 2 ^ k = omega (arith, double_power k) in
    let more : (2 ^ k == 0) ≡ false = ground (arith, one-le-pow k 2 (omega arith)) in
    rw (half_b, half_d, more) refl

shift_down-divides :
    (base T k fuel rem res : ℕ)
    → 0 < base
    → k < fuel
    → rem < 2 * (base * 2 ^ k)
    → res * base + rem ≡ T
    → T < 2 ^ 64
    → (q r : ℕ) × (shift_down fuel (base * 2 ^ k) (2 ^ k) rem res ≡ ok (q, r))
      × (q * base + r ≡ T)
      × (r < base)
unfolding shift_down rem_after res_after
shift_down-divides base T k zero rem res p f c e t = absurd (omega (arith, f))
shift_down-divides base T zero (suc fuel) rem res p f c e t = (
  res_after (base * 1) 1 rem res,
  rem_after (base * 1) rem,
  refl,
  round_sum base 1 rem res T p e t,
  omega (arith, round_small (base * 1) rem c),
)
shift_down-divides base T (suc k) (suc fuel) rem res p f c e t =
    let b = base * 2 ^ suc k in
    let d = 2 ^ suc k in
    let (q, r, runs, sum, small) =
      shift_down-divides base T k fuel (rem_after b rem) (res_after b d rem res) p
        (omega (arith, f)) (omega (arith, round_small b rem c, double base k))
        (round_sum base d rem res T p e t) t in
    (q, r, round_goes_on base k fuel rem res ∙ runs, sum, small)

quotient_unique :
    (base q r : ℕ) → r < base → ((q * base + r) / base ≡ q) × ((q * base + r) % base ≡ r)
quotient_unique base q r h =
    let turned : q * base + r ≡ r + base * q = omega arith in
    (
      ap (λ x. x / base) turned
          ∙ add-mul-div_left r q (omega (arith, h))
          ∙ ap (λ x. x + q) (div-eq_of_lt h)
          ∙ omega arith,
      ap (λ x. x % base) turned ∙ add-mul-mod_self_left r base q ∙ mod-eq_of_lt h,
    )

loops-divide :
    (base num res rem : ℕ)
    → 0 < base
    → base < 2 ^ 32
    → num < 2 ^ 64
    → res * base + rem ≡ num
    → (q r : ℕ) × (loops base (res, rem) ≡ ok (q, r)) × (q * base + r ≡ num) × (r < base)
loops-divide base num res rem p b n e =
    let begin : base ≡ base * 2 ^ 0 = omega arith in
    let (b', d', up, raised) =
      shift_up-Raised base rem 65 0 p (omega (arith, e, n)) (omega (arith, b)) (omega arith) in
    let fits : base * 2 ^ raised.k < 2 ^ 64 =
      subst (λ x. x < 2 ^ 64) raised.multiple raised.small in
    let covers : rem < 2 * (base * 2 ^ raised.k) =
      subst (λ x. rem < 2 * x) raised.multiple raised.covers in
    let (q, r, down, sum, small) =
      shift_down-divides base num raised.k 65 rem res p (exponent_small base raised.k p fits) covers
        e n in
    (
      q,
      r,
      ap (λ x. x >>= λ y. shift_down 65 y.0 y.1 rem res) (ap (λ x. shift_up 65 rem x 1) begin ∙ up)
          ∙ ap₂ (λ x y. shift_down 65 x y rem res) raised.multiple raised.power
          ∙ down,
      sum,
      small,
    )

reduce_sum :
    (num base : ℕ)
    → 0 < base
    → base < 2 ^ 32
    → num < 2 ^ 64
    → (reduce num base).0 * base + (reduce num base).1 ≡ num
reduce_sum num base p b n = elim (Bool-cases (leb base (num / 2 ^ 32))) [
  | inl h ↦
      let le : num / 2 ^ 32 / base * base ≤ num / 2 ^ 32 = div-mul-le_self (num / 2 ^ 32) base in
      rw h (omega (arith, le, n))
  | inr h ↦ rw h (omega arith)
]

-- For a divisor of 32 bits other than 0 and a number of 64 bits, the division by shifts ends within 65
-- rounds of each loop and gives what the machine's division gives.
pub div64_by_shifts-div64 :
    (num base : ℕ)
    → 0 < base
    → base < 2 ^ 32
    → num < 2 ^ 64
    → div64_by_shifts num base ≡ ok (div64 num base)
unfolding div64_by_shifts
div64_by_shifts-div64 num base p b n =
    let (q, r, runs, sum, small) =
      loops-divide base num (reduce num base).0 (reduce num base).1 p b n
        (reduce_sum num base p b n) in
    let (quotient, remainder) = quotient_unique base q r small in
    let small_remainder : r % 2 ^ 32 ≡ r = omega (arith, small, b) in
    rw (runs) (
      ap₂ (λ x y. ok (x, y)) (sym quotient ∙ ap (λ x. x / base) sum)
        (small_remainder ∙ sym remainder ∙ ap (λ x. x % base) sum))
