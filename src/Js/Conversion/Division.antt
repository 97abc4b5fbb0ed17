-- ===== src/Js/Conversion/Division.antt =====
-- `div64` of libs/js/conversion.c where `__X86_64__` is not defined: division by shifts. The loops run
-- on fuel.
pub mod Exact
use native.Mathlib.Nat.{
  pow-succ', one-le-pow, pow-le-pow_right, le-mul_of_pos_right, add-mul-div_left,
  add-mul-mod_self_left, div-mul-le_self, div-eq_of_lt, mod-eq_of_lt,
}
use saki_os.Js.Conversion.Text.{div64}
use saki_os.Base.{
  ℕ, zero, suc, ◌+◌, ◌-◌, ◌*◌, ◌/◌, ◌%◌, ◌^◌, ◌≤◌, ◌<◌, ◌≡◌, ◌⊎◌, inl, inr, refl, ap, ap₂, sym,
  subst, ◌∙◌, Bool, true, false, ◌&&◌, ◌==◌, ltb, leb, if◌then◌else◌, Result, ok, fault,
  out_of_fuel, ◌>>=◌, arith, Bool-cases,
}

-- `while ((int64_t)b > 0 && b < rem)`: `b` and `d` behind it
unfoldable pub shift_up : ℕ → ℕ → ℕ → ℕ → Result (ℕ × ℕ)
shift_up zero rem b d = fault out_of_fuel
shift_up (suc fuel) rem b d =
    let rest = shift_up fuel rem ((b + b) % 2 ^ 64) ((d + d) % 2 ^ 64) in
    if (ltb 0 b && ltb b (2 ^ 63)) && ltb b rem then rest else ok (b, d)

-- the `do` loop: `res` and `rem` behind it
unfoldable pub shift_down : ℕ → ℕ → ℕ → ℕ → ℕ → Result (ℕ × ℕ)
shift_down zero b d rem res = fault out_of_fuel
shift_down (suc fuel) b d rem res =
    let rem₁ = if leb b rem then rem - b else rem in
    let res₁ = if leb b rem then (res + d) % 2 ^ 64 else res in
    let rest = shift_down fuel (b / 2) (d / 2) rem₁ res₁ in
    if d / 2 == 0 then ok (res₁, rem₁) else rest

-- "Reduce the thing a bit first": `res` and `rem` behind it
abbrev pub reduce : ℕ → ℕ → ℕ × ℕ
reduce num base =
    if leb base (num / 2 ^ 32)
    then (num / 2 ^ 32 / base * 2 ^ 32, num - num / 2 ^ 32 / base * base % 2 ^ 32 * 2 ^ 32)
    else (0, num)

abbrev pub loops : ℕ → ℕ × ℕ → Result (ℕ × ℕ)
loops base reduced = do (b, d) ← shift_up 65 reduced.1 base 1; shift_down 65 b d reduced.1 reduced.0

-- the quotient and the remainder
unfoldable pub div64_by_shifts : ℕ → ℕ → Result (ℕ × ℕ)
div64_by_shifts num base = do (res, rem) ← loops base (reduce num base); ok (res, rem % 2 ^ 32)
