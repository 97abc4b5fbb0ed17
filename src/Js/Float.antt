-- ===== src/Js/Float.antt =====
-- The arithmetic of `double`, which the FPU and libs/c-stdlib/math.c give. A 32-bit integer is its
-- word, also where it is signed.
use saki_os.Base.{ℕ, ℤ, Bool}

pub record Float (D : Type 0) : Type 0 where
  pub of_int : ℕ → D
  pub of_int32 : ℕ → D
  pub of_uint32 : ℕ → D
  pub nan : D
  -- `EPISILON` of libs/js/conversion.c
  pub epsilon : D
  pub add : D → D → D
  pub sub : D → D → D
  pub mul : D → D → D
  pub div : D → D → D
  pub fmod : D → D → D
  pub neg : D → D
  pub floor : D → D
  pub fabs : D → D
  pub log10 : D → D
  pub pow : D → ℕ → D
  pub isnan : D → Bool
  pub isinf : D → Bool
  pub less : D → D → Bool
  pub less_eq : D → D → Bool
  pub equal : D → D → Bool
  -- the casts
  pub to_int16 : D → ℤ
  pub to_int32 : D → ℕ
  pub to_uint64 : D → ℕ
