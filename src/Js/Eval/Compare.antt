-- ===== src/Js/Eval/Compare.antt =====
-- The comparisons of libs/js/internal.c, on values. They do not look at the heap.
pub mod Halts
use saki_os.Base.{
  ℕ, zero, suc, Bool, true, false, not, ◌&&◌, ◌||◌, Option, none, some, ◌==◌, if◌then◌else◌,
  is_zero, is_neg, Result, ok, fault, assertion, out_of_fuel, ◌>>=◌,
}
use saki_os.Js.Conversion.{js_to_primitive, js_to_number, js_to_string}
use saki_os.Js.Data.{Data, type}
use saki_os.Js.Float.{Float}
use saki_os.Unicode.Hash.{unicode_utf16_cmp}

module _ {D : Type 0} (float : Float D) where
  abbrev pub both_primitive : Data D → Data D → Bool → Result (Data D × Data D)
  both_primitive x y left_first =
      if left_first
      then (do px ← js_to_primitive x; py ← js_to_primitive y; ok (px, py))
      else (do py ← js_to_primitive y; px ← js_to_primitive x; ok (px, py))

  -- `none` for undefined
  unfoldable pub abs_rel_comp : Data D → Data D → Bool → Result (Option Bool)
  unfolding js_to_string unicode_utf16_cmp
  abs_rel_comp x y left_first = do
    (px, py) ← both_primitive x y left_first
    if not (type px == 3) || not (type py == 3)
        then (do
          nx ← js_to_number float px
          ny ← js_to_number float py
          if float.isnan nx || float.isnan ny then ok none else ok (some (float.less nx ny)))
        else (do
          lstr ← js_to_string float px
          rstr ← js_to_string float py
          ok (some (is_neg (unicode_utf16_cmp lstr rstr))))

  -- values of one type
  unfoldable pub same_type_comp : Data D → Data D → Result Bool
  unfolding unicode_utf16_cmp
  same_type_comp Data.undefined y = ok true
  same_type_comp Data.null y = ok true
  same_type_comp (Data.number a) (Data.number b) = ok (float.equal a b)
  same_type_comp (Data.string a) (Data.string b) = ok (is_zero (unicode_utf16_cmp a b))
  same_type_comp (Data.boolean a) (Data.boolean b) = ok (if a then b else not b)
  same_type_comp x y = fault assertion

  -- `absEqComp`, on fuel for the calls of itself
  unfoldable pub eq_rounds : ℕ → Data D → Data D → Result Bool
  unfolding same_type_comp
  eq_rounds zero x y = fault out_of_fuel
  eq_rounds (suc fuel) x y =
      let number_left : Result Bool = (do
        nx ← js_to_number float x
        eq_rounds fuel (Data.number nx) y) in
      let number_right : Result Bool = (do
        ny ← js_to_number float y
        eq_rounds fuel x (Data.number ny)) in
      let primitive_left : Result Bool = (do px ← js_to_primitive x; eq_rounds fuel px y) in
      let primitive_right : Result Bool = (do py ← js_to_primitive y; eq_rounds fuel x py) in
      let tx = type x in
      let ty = type y in
      if tx == ty
      then same_type_comp x y
      else if tx == 0 && ty == 1
      then ok true
      else if tx == 1 && ty == 0
      then ok true
      else if tx == 4 && ty == 3
      then number_right
      else if tx == 3 && ty == 4
      then number_left
      else if tx == 2
      then number_left
      else if ty == 2
      then number_right
      else if (tx == 3 || tx == 4) && ty == 5
      then primitive_right
      else if (ty == 3 || ty == 4) && tx == 5
      then primitive_left
      else ok false

  abbrev pub abs_eq_comp : Data D → Data D → Result Bool
  abs_eq_comp x y = eq_rounds 3 x y

  unfoldable pub strict_eq_comp : Data D → Data D → Result Bool
  unfolding same_type_comp
  strict_eq_comp x y = if not (type x == type y) then ok false else same_type_comp x y
