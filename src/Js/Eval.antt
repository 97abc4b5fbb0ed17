-- ===== src/Js/Eval.antt =====
-- libs/js/internal.c and libs/js/ref.c: a run that evaluates changes the heap of objects.
pub mod Compare
pub mod Operators
pub mod Unary
pub mod Binary
pub mod Nodes
pub mod Keeps
use saki_os.Base.{
  ℕ, Bool, true, false, ◌||◌, List, ◌==◌, if◌then◌else◌, Result, ok, fault, assertion,
}
use saki_os.Base as Base
use saki_os.Js.Data.{Data, Heap, Object, deref, type}
use saki_os.Js.Object.Define.{put}
use saki_os.Js.Object.{get}

abbrev pub Eval : Type 0 → Type 0 → Type 0
Eval D A = Heap D → Result (A × Heap D)

module _ {D : Type 0} where
  abbrev pub pure : {A : Type 0} → A → Eval D A
  pure a heap = ok (a, heap)

  abbrev pub fail : {A : Type 0} → Eval D A
  fail heap = fault assertion

  -- a function that leaves the heap alone
  abbrev pub lift : {A : Type 0} → Result A → Eval D A
  lift r heap = Base.◌>>=◌ r (λ a. ok (a, heap))

  infixl 5 ◌>>=◌ ◌>>◌
  abbrev pub ◌>>=◌ : {A B : Type 0} → Eval D A → (A → Eval D B) → Eval D B
  m >>= f = λ heap. Base.◌>>=◌ (m heap) (λ r. f r.0 r.1)

  abbrev pub ◌>>◌ : {A B : Type 0} → Eval D A → Eval D B → Eval D B
  m >> k = m >>= λ _. k

  -- the fields of a reference
  abbrev pub js_alloc_reference : Data D → List ℕ → Bool → Data D
  js_alloc_reference base ref_name strict = Data.reference base ref_name strict

  -- the tests of a reference, at its base
  abbrev pub js_has_primitive_base : Data D → Bool
  js_has_primitive_base base = type base == 3 || type base == 2 || type base == 4

  abbrev pub js_is_property_reference : Data D → Bool
  js_is_property_reference base = js_has_primitive_base base || type base == 5

  abbrev pub js_is_unresolvable_reference : Data D → Bool
  js_is_unresolvable_reference base = type base == 1

  -- the base as a pointer to an object
  abbrev pub with_object : {A : Type 0} → Data D → (ℕ → Eval D A) → Eval D A
  with_object (Data.object o) f = f o
  with_object base f = fail

  abbrev pub get_at : List ℕ → ℕ → Eval D (Data D)
  get_at name o heap =
      Base.◌>>=◌ (deref heap o) (λ O. Base.◌>>=◌ (get heap O name) (λ v. ok (v, heap)))

  abbrev pub put_at : List ℕ → Data D → Bool → ℕ → Eval D (Unit {0})
  put_at name W strict o heap = Base.◌>>=◌ (put heap o name W strict) (λ heap'. ok (tt, heap'))

  unfoldable pub js_get_value : Data D → Eval D (Data D)
  js_get_value (Data.reference base name strict) =
      if js_is_unresolvable_reference base
      then fail
      else if js_is_property_reference base
      then (if js_has_primitive_base base then fail else with_object base (get_at name))
      else fail
  js_get_value value = pure value

  unfoldable pub js_put_value : Data D → Data D → Eval D (Unit {0})
  js_put_value (Data.reference base name strict) W =
      if js_is_unresolvable_reference base
      then fail
      else if js_is_property_reference base
      then (if js_has_primitive_base base then fail else with_object base (put_at name W strict))
      else fail
  js_put_value value W = fail

  -- the value of an operand
  unfoldable pub value_of : Eval D (Data D) → Eval D (Data D)
  unfolding js_get_value
  value_of operand = operand >>= js_get_value

  -- both operands, as values, and a function of them that leaves the heap alone
  unfoldable pub on_values :
      Eval D (Data D) → Eval D (Data D) → (Data D → Data D → Result (Data D)) → Eval D (Data D)
  unfolding value_of
  on_values left right f = do lval ← value_of left; rval ← value_of right; lift (f lval rval)
