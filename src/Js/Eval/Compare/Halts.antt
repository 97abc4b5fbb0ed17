-- ===== src/Js/Eval/Compare/Halts.antt =====
-- `absEqComp` of libs/js/internal.c and its calls of itself.
use saki_os.Base.Ensures.{Ensures, holds, failed, Ensures-halts}
use saki_os.Base.{
  ℕ, suc, ◌≡◌, ◌≢◌, refl, Bool, true, false, ◌&&◌, ◌||◌, ◌==◌, if◌then◌else◌, Result, ok, fault,
  out_of_fuel, assertion, ◌>>=◌, arith,
}
use saki_os.Js.Conversion.{js_to_primitive, js_to_number}
use saki_os.Js.Data.{Data, type}
use saki_os.Js.Eval.Compare.{same_type_comp, eq_rounds, abs_eq_comp}
use saki_os.Js.Float.{Float}

-- a run within its fuel
Halts : {A : Type 0} → Result A → Type 0
Halts {A} r = Ensures (λ (a : A). Unit {0}) r

ok-Halts : {A : Type 0} (a : A) → Halts (ok a)
unfolding Halts
ok-Halts a = holds tt

assertion-Halts : (A : Type 0) → Halts {A = A} (fault assertion)
unfolding Halts
assertion-Halts A = failed (cc)

module _ {D : Type 0} (float : Float D) where
  same_type_comp-Halts : (x y : Data D) → Halts (same_type_comp float x y)
  unfolding same_type_comp Halts
  same_type_comp-Halts Data.undefined y = ok-Halts true
  same_type_comp-Halts Data.null y = ok-Halts true
  same_type_comp-Halts (Data.number a) (Data.number b) = ok-Halts _
  same_type_comp-Halts (Data.string a) (Data.string b) = ok-Halts _
  same_type_comp-Halts (Data.boolean a) (Data.boolean b) = ok-Halts _
  same_type_comp-Halts x y = assertion-Halts Bool

  eq_rounds_numbers :
      (fuel : ℕ) (a b : D) → Halts (eq_rounds float (suc fuel) (Data.number a) (Data.number b))
  unfolding eq_rounds same_type_comp
  eq_rounds_numbers fuel a b = ok-Halts _

  -- one operand is a number
  eq_rounds_left :
      (fuel : ℕ) (a : D) (y : Data D) → Halts (eq_rounds float (suc (suc fuel)) (Data.number a) y)
  unfolding eq_rounds same_type_comp
  eq_rounds_left fuel a Data.null = ok-Halts _
  eq_rounds_left fuel a Data.undefined = ok-Halts _
  eq_rounds_left fuel a (Data.boolean true) = eq_rounds_numbers fuel a _
  eq_rounds_left fuel a (Data.boolean false) = eq_rounds_numbers fuel a _
  eq_rounds_left fuel a (Data.string s) = assertion-Halts Bool
  eq_rounds_left fuel a (Data.number b) = eq_rounds_numbers fuel a b
  eq_rounds_left fuel a (Data.object o) = assertion-Halts Bool
  eq_rounds_left fuel a (Data.reference b n s) = ok-Halts _
  eq_rounds_left fuel a (Data.completion t v) = ok-Halts _

  eq_rounds_right :
      (fuel : ℕ) (x : Data D) (b : D) → Halts (eq_rounds float (suc (suc fuel)) x (Data.number b))
  unfolding eq_rounds same_type_comp
  eq_rounds_right fuel Data.null b = ok-Halts _
  eq_rounds_right fuel Data.undefined b = ok-Halts _
  eq_rounds_right fuel (Data.boolean true) b = eq_rounds_numbers fuel _ b
  eq_rounds_right fuel (Data.boolean false) b = eq_rounds_numbers fuel _ b
  eq_rounds_right fuel (Data.string s) b = assertion-Halts Bool
  eq_rounds_right fuel (Data.number a) b = eq_rounds_numbers fuel a b
  eq_rounds_right fuel (Data.object o) b = assertion-Halts Bool
  eq_rounds_right fuel (Data.reference c n s) b = ok-Halts _
  eq_rounds_right fuel (Data.completion t v) b = ok-Halts _

  number_then :
      (x : Data D) (f : D → Result Bool)
      → ((d : D) → Halts (f d))
      → Halts (js_to_number float x >>= f)
  number_then Data.null f k = k _
  number_then Data.undefined f k = k _
  number_then (Data.boolean true) f k = k _
  number_then (Data.boolean false) f k = k _
  number_then (Data.number d) f k = k d
  number_then (Data.string s) f k = assertion-Halts Bool
  number_then (Data.object o) f k = assertion-Halts Bool
  number_then (Data.reference b n s) f k = assertion-Halts Bool
  number_then (Data.completion t v) f k = assertion-Halts Bool

  -- An object has no primitive value.
  object_then :
      (x : Data D) (f : Data D → Result Bool)
      → (type x == 5) ≡ true
      → Halts (js_to_primitive x >>= f)
  object_then Data.null f e = absurd (cc)
  object_then Data.undefined f e = absurd (cc)
  object_then (Data.boolean b) f e = absurd (cc)
  object_then (Data.number d) f e = absurd (cc)
  object_then (Data.string s) f e = absurd (cc)
  object_then (Data.object o) f e = assertion-Halts Bool
  object_then (Data.reference b n s) f e = assertion-Halts Bool
  object_then (Data.completion t v) f e = assertion-Halts Bool

  if-Halts :
      (b : Bool) (r s : Result Bool) → (b ≡ true → Halts r) → Halts s → Halts (if b then r else s)
  if-Halts true r s h k = h refl
  if-Halts false r s h k = k

  second_true : (a b : Bool) → (a && b) ≡ true → b ≡ true
  second_true a b e = ground (arith, e)

  abs_eq_comp-Halts : (x y : Data D) → Halts (abs_eq_comp float x y)
  unfolding eq_rounds
  abs_eq_comp-Halts x y =
      let left : Halts (js_to_number float x >>= λ nx. eq_rounds float 2 (Data.number nx) y) =
        number_then x _ λ nx. eq_rounds_left 0 nx y in
      let right : Halts (js_to_number float y >>= λ ny. eq_rounds float 2 x (Data.number ny)) =
        number_then y _ λ ny. eq_rounds_right 0 x ny in
      let tx = type x in
      let ty = type y in
      let px : (type y == 5) ≡ true → Halts (js_to_primitive y >>= λ q. eq_rounds float 2 x q) =
        object_then y _ in
      let py : (type x == 5) ≡ true → Halts (js_to_primitive x >>= λ q. eq_rounds float 2 q y) =
        object_then x _ in
      if-Halts (tx == ty) _ _ (λ _. same_type_comp-Halts x y)
        (if-Halts (tx == 0 && ty == 1) _ _ (λ _. ok-Halts true)
          (if-Halts (tx == 1 && ty == 0) _ _ (λ _. ok-Halts true)
            (if-Halts (tx == 4 && ty == 3) _ _ (λ _. right)
              (if-Halts (tx == 3 && ty == 4) _ _ (λ _. left)
                (if-Halts (tx == 2) _ _ (λ _. left)
                  (if-Halts (ty == 2) _ _ (λ _. right)
                    (if-Halts ((tx == 3 || tx == 4) && ty == 5) _ _
                      (λ e. px (second_true (tx == 3 || tx == 4) (ty == 5) e))
                      (if-Halts ((ty == 3 || ty == 4) && tx == 5) _ _
                        (λ e. py (second_true (ty == 3 || ty == 4) (tx == 5) e))
                        (ok-Halts false)))))))))

  -- `absEqComp` of any two values ends within three calls.
  pub abs_eq_comp_returns : (x y : Data D) → abs_eq_comp float x y ≢ fault out_of_fuel
  unfolding Halts
  abs_eq_comp_returns x y = Ensures-halts (abs_eq_comp-Halts x y)
