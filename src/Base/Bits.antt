-- ===== src/Base/Bits.antt =====
-- `|` of fields that lie side by side, `&` with a low mask, and the test of one bit.
use Prim.Native.Nat.{
  ℕ, zero, suc, ◌+◌, ◌-◌, ◌*◌, ◌/◌, ◌%◌, ◌^◌, ◌≤◌, ◌<◌, min, max, bit_and, bit_or, bit_xor, differ,
  digits, bit_and-bitwise, bit_or-bitwise, bit_xor-bitwise,
}
use mathlib.Core.Bool.{Bool, true, ◌&&◌}
use mathlib.Core.Path.{◌≡◌, refl, ap, sym, ◌∙◌, ◌≡⟨◌⟩◌, ◌∎}
use native.Mathlib.Nat.{div-div-eq-div-mul, pow-suc, one-le-pow}
use native.Mathlib.Omega.{arith}
use saki_os.Base.Tests.{◌==◌, ==→eq}

-- The operations recur on a count of digits; any count that covers the first number serves.
module _ (z : ℕ → ℕ) (f : ℕ → ℕ → ℕ) where
  digits_enough : (n m a b : ℕ) → a ≤ n → a ≤ m → digits z f n a b ≡ digits z f m a b
  digits_enough zero zero a b p q = refl
  digits_enough zero (suc m) zero b p q = refl
  digits_enough zero (suc m) (suc a) b p q = absurd (omega arith)
  digits_enough (suc n) zero zero b p q = refl
  digits_enough (suc n) zero (suc a) b p q = absurd (omega arith)
  digits_enough (suc n) (suc m) zero b p q = refl
  digits_enough (suc n) (suc m) (suc a) b p q =
      ap (λ (t : ℕ). t * 2 + f (suc a % 2) (b % 2))
        (digits_enough n m (suc a / 2) (b / 2) (omega arith) (omega arith))

bit_and-low : (a b : ℕ) → bit_and a b ≡ bit_and (a / 2) (b / 2) * 2 + min (a % 2) (b % 2)
bit_and-low zero b = omega (arith, bit_and-bitwise 0 b, bit_and-bitwise 0 (b / 2))
bit_and-low (suc a) b = omega (
  arith,
  bit_and-bitwise (suc a) b,
  bit_and-bitwise (suc a / 2) (b / 2),
  digits_enough (λ b. zero) min a (suc a / 2) (suc a / 2) (b / 2) (omega arith) (omega arith),
)

bit_or-low : (a b : ℕ) → bit_or a b ≡ bit_or (a / 2) (b / 2) * 2 + max (a % 2) (b % 2)
bit_or-low zero b = omega (arith, bit_or-bitwise 0 b, bit_or-bitwise 0 (b / 2))
bit_or-low (suc a) b = omega (
  arith,
  bit_or-bitwise (suc a) b,
  bit_or-bitwise (suc a / 2) (b / 2),
  digits_enough (λ b. b) max a (suc a / 2) (suc a / 2) (b / 2) (omega arith) (omega arith),
)

bit_xor-low : (a b : ℕ) → bit_xor a b ≡ bit_xor (a / 2) (b / 2) * 2 + differ (a % 2) (b % 2)
bit_xor-low zero b = omega (arith, bit_xor-bitwise 0 b, bit_xor-bitwise 0 (b / 2))
bit_xor-low (suc a) b = omega (
  arith,
  bit_xor-bitwise (suc a) b,
  bit_xor-bitwise (suc a / 2) (b / 2),
  digits_enough (λ b. b) differ a (suc a / 2) (suc a / 2) (b / 2) (omega arith) (omega arith),
)

differ_zero : (x : ℕ) → differ x 0 ≡ x
differ_zero zero = refl
differ_zero (suc x) = refl

differ_one : (x : ℕ) → x < 2 → differ x 1 ≡ 1 - x
differ_one zero h = refl
differ_one (suc zero) h = refl
differ_one (suc (suc x)) h = absurd (omega arith)

bit_xor-zero_upto : (n a : ℕ) → a ≤ n → bit_xor a 0 ≡ a
bit_xor-zero_upto n zero h = refl
bit_xor-zero_upto zero (suc a) h = absurd (omega arith)
bit_xor-zero_upto (suc n) (suc a) h = omega (
  arith,
  bit_xor-low (suc a) 0,
  differ_zero (suc a % 2),
  bit_xor-zero_upto n (suc a / 2) (omega arith),
)

bit_or-zero_upto : (n a : ℕ) → a ≤ n → bit_or a 0 ≡ a
bit_or-zero_upto n zero h = refl
bit_or-zero_upto zero (suc a) h = absurd (omega arith)
bit_or-zero_upto (suc n) (suc a) h =
    omega (arith, bit_or-low (suc a) 0, bit_or-zero_upto n (suc a / 2) (omega arith))

bit_and-zero_upto : (n a : ℕ) → a ≤ n → bit_and a 0 ≡ 0
bit_and-zero_upto n zero h = refl
bit_and-zero_upto zero (suc a) h = absurd (omega arith)
bit_and-zero_upto (suc n) (suc a) h =
    omega (arith, bit_and-low (suc a) 0, bit_and-zero_upto n (suc a / 2) (omega arith))

double : (q k : ℕ) → q * 2 ^ suc k ≡ 2 * (q * 2 ^ k)
double q k = omega (arith, ap (λ (t : ℕ). q * t) (pow-suc 2 k))

-- `(hi << k) | lo` adds, when `lo` fits below bit `k`.
pub bit_or-add : (k hi lo : ℕ) → lo < 2 ^ k → bit_or (hi * 2 ^ k) lo ≡ hi * 2 ^ k + lo
bit_or-add zero hi lo h = ground (arith, bit_or-zero_upto hi hi (omega arith))
bit_or-add (suc k) hi lo h = ground (
  arith,
  bit_or-low (hi * 2 ^ suc k) lo,
  double hi k,
  bit_or-add k hi (lo / 2) (omega (arith, pow-suc 2 k)),
)

bit_and-field : (k q r : ℕ) → r < 2 ^ k → bit_and (q * 2 ^ k + r) (2 ^ k - 1) ≡ r
bit_and-field zero q r h =
    ground (arith, bit_and-zero_upto (q * 2 ^ 0 + r) (q * 2 ^ 0 + r) (omega arith))
bit_and-field (suc k) q r h = ground (
  arith,
  bit_and-low (q * 2 ^ suc k + r) (2 ^ suc k - 1),
  double q k,
  pow-suc 2 k,
  one-le-pow k 2,
  bit_and-field k q (r / 2) (omega (arith, pow-suc 2 k)),
)

-- `x & (2^k - 1)` is the remainder.
pub bit_and-mask : (k x : ℕ) → bit_and x (2 ^ k - 1) ≡ x % 2 ^ k
bit_and-mask k x = ground (arith, one-le-pow k 2, bit_and-field k (x / 2 ^ k) (x % 2 ^ k))

-- A power of two on the right of `^` flips that bit.
pub bit_xor-two_pow : (k x : ℕ) → bit_xor x (2 ^ k) + 2 * (x / 2 ^ k % 2 * 2 ^ k) ≡ x + 2 ^ k
bit_xor-two_pow zero x = omega (
  arith,
  bit_xor-low x 1,
  differ_one (x % 2) (omega arith),
  bit_xor-zero_upto (x / 2) (x / 2) (omega arith),
)
bit_xor-two_pow (suc k) x =
    let doubled : 2 ^ suc k ≡ 2 * 2 ^ k = omega (arith, pow-suc 2 k) in
    let halved : 2 ^ suc k / 2 ≡ 2 ^ k = omega (arith, doubled) in
    let even : 2 ^ suc k % 2 ≡ 0 = omega (arith, doubled) in
    let deep : x / 2 / 2 ^ k ≡ x / 2 ^ suc k =
      div-div-eq-div-mul x 2 (2 ^ k) ∙ ap (λ (t : ℕ). x / t) (sym doubled) in
    let half =
      ap (λ (t : ℕ). bit_xor (x / 2) (2 ^ k) + 2 * (t % 2 * 2 ^ k)) (sym deep)
      ∙ bit_xor-two_pow k (x / 2) in
    omega (
      arith,
      bit_xor-low x (2 ^ suc k),
      ap (bit_xor (x / 2)) halved,
      differ_zero (x % 2),
      ap (differ (x % 2)) even,
      double (x / 2 ^ suc k % 2) k,
      doubled,
      half,
    )

-- `(num >> bit) & 1`: a power of two on the right picks that bit.
pub bit_and-two_pow : (k x : ℕ) → bit_and x (2 ^ k) ≡ x / 2 ^ k % 2 * 2 ^ k
bit_and-two_pow zero x =
    ground (arith, bit_and-low x 1, bit_and-zero_upto (x / 2) (x / 2) (omega arith))
bit_and-two_pow (suc k) x =
    bit_and x (2 ^ suc k)
    ≡⟨ omega (arith, bit_and-low x (2 ^ suc k), pow-suc 2 k, ap (bit_and (x / 2)) halved) ⟩
      bit_and (x / 2) (2 ^ k) * 2
    ≡⟨ ap (λ (t : ℕ). t * 2) (bit_and-two_pow k (x / 2)) ⟩ x / 2 / 2 ^ k % 2 * 2 ^ k * 2
    ≡⟨ ap (λ (t : ℕ). t % 2 * 2 ^ k * 2)
        (div-div-eq-div-mul x 2 (2 ^ k) ∙ ap (λ (t : ℕ). x / t) (sym doubled)) ⟩
      x / 2 ^ suc k % 2 * 2 ^ k * 2
    ≡⟨ omega (arith, double (x / 2 ^ suc k % 2) k) ⟩ x / 2 ^ suc k % 2 * 2 ^ suc k ∎
  where
    doubled : 2 ^ suc k ≡ 2 * 2 ^ k
    doubled = omega (arith, pow-suc 2 k)

    halved : 2 ^ suc k / 2 ≡ 2 ^ k
    halved = omega (arith, pow-suc 2 k)

-- A test at every number below a bound, checked by evaluation.
unfoldable pub every_below : ℕ → (ℕ → Bool) → Bool
every_below zero test = true
every_below (suc n) test = test n && every_below n test

pub every_below_at :
    (n : ℕ) (test : ℕ → Bool) (x : ℕ) → every_below n test ≡ true → x < n → test x ≡ true
unfolding every_below
every_below_at zero test x h lt = absurd (omega arith)
every_below_at (suc n) test x h lt = ground (arith, every_below_at n test x)

-- The marks of the lead bytes and of the continuation bytes of UTF-8.
pub bit_or-C0 : (x : ℕ) → x < 32 → bit_or x 0xC0 ≡ x + 0xC0
bit_or-C0 x h =
    ==→eq (bit_or x 0xC0) (x + 0xC0)
      (every_below_at 32 (λ x. bit_or x 0xC0 == x + 0xC0) x (unfold every_below in refl) h)

pub bit_or-E0 : (x : ℕ) → x < 16 → bit_or x 0xE0 ≡ x + 0xE0
bit_or-E0 x h =
    ==→eq (bit_or x 0xE0) (x + 0xE0)
      (every_below_at 16 (λ x. bit_or x 0xE0 == x + 0xE0) x (unfold every_below in refl) h)

pub bit_or-F0 : (x : ℕ) → x < 8 → bit_or x 0xF0 ≡ x + 0xF0
bit_or-F0 x h =
    ==→eq (bit_or x 0xF0) (x + 0xF0)
      (every_below_at 8 (λ x. bit_or x 0xF0 == x + 0xF0) x (unfold every_below in refl) h)

pub bit_or_80 : (x : ℕ) → x < 64 → bit_or x 0x80 ≡ x + 0x80
bit_or_80 x h =
    ==→eq (bit_or x 0x80) (x + 0x80)
      (every_below_at 64 (λ x. bit_or x 0x80 == x + 0x80) x (unfold every_below in refl) h)

pub bit_and-C0 : (x : ℕ) → x < 64 → (bit_and (x + 0x80) 0xC0 == 0x80) ≡ true
bit_and-C0 x h =
    every_below_at 64 (λ x. bit_and (x + 0x80) 0xC0 == 0x80) x (unfold every_below in refl) h

-- the attribute of a text cell
pub bit_or_F00 : (x : ℕ) → x < 256 → bit_or x 0xF00 ≡ x + 0xF00
bit_or_F00 x h =
    ==→eq (bit_or x 0xF00) (x + 0xF00)
      (every_below_at 256 (λ x. bit_or x 0xF00 == x + 0xF00) x (unfold every_below in refl) h)
