-- ===== src/Js/Eval/Keeps/Run.antt =====
-- libs/js/ref.c: what a run that evaluates leaves of the heap.
use saki_os.Base.{
  ℕ, ◌≡◌, refl, ap, sym, subst, ◌∙◌, Bool, true, false, not, List, Option, none, some,
  if◌then◌else◌, Result, ok, fault, assertion, ok-injective, bind-ok, arith,
}
use saki_os.Base as Base
use saki_os.Js.Data.{Data, Heap, deref}
use saki_os.Js.Eval.Keeps.{Evolves, Evolves-refl, Evolves-trans, Keeps, put-Evolves}
use saki_os.Js.Eval.{
  Eval, pure, fail, lift, ◌>>=◌, js_get_value, js_put_value, value_of, get_at, put_at, with_object,
  js_is_unresolvable_reference, js_is_property_reference, js_has_primitive_base,
}
use saki_os.Js.Object.Define.{put}
use saki_os.Js.Object.{get}

module _ (D : Type 0) where
  pub Keeps-fault : (A : Type 0) (f : Base.Fault) → Keeps {A = A} (λ (heap : Heap D). fault f)
  unfolding Keeps
  Keeps-fault A f heap v a heap' e = absurd (cc)

  pub Keeps-lift : {A : Type 0} (r : Result A) → Keeps {D = D} (lift r)
  unfolding Keeps
  Keeps-lift (ok a) heap v b heap' e =
      subst (Evolves heap) (ap (λ r. r.1) (ok-injective e)) (Evolves-refl heap v)
  Keeps-lift (fault f) heap v b heap' e = absurd (cc)

  pub Keeps-pure : {A : Type 0} (a : A) → Keeps {D = D} (pure a)
  Keeps-pure a = Keeps-lift (ok a)

  pub get_at-Keeps : (name : List ℕ) (o : ℕ) → Keeps {D = D} (get_at name o)
  unfolding Keeps
  get_at-Keeps name o heap v a heap' e =
      let (O, _, e₁) = bind-ok (deref heap o) _ e in
      let (w, _, e₂) = bind-ok (get heap O name) _ e₁ in
      subst (Evolves heap) (ap (λ r. r.1) (ok-injective e₂)) (Evolves-refl heap v)

module _ {D : Type 0} where
  pub Keeps-bind :
      {A B : Type 0} (m : Eval D A) (f : A → Eval D B)
      → Keeps m
      → ((a : A) → Keeps (f a))
      → Keeps (m >>= f)
  unfolding Keeps
  Keeps-bind m f k l heap v b heap' e =
      let ((a, h), q, r) = bind-ok (m heap) (λ x. f x.0 x.1) e in
      let first = k heap v a h q in Evolves-trans first (l a h first.valid b heap' r)

  pub Keeps-if :
      {A : Type 0} (b : Bool) (m n : Eval D A) → Keeps m → Keeps n → Keeps (if b then m else n)
  Keeps-if true m n k l = k
  Keeps-if false m n k l = l

  pub put_at-Keeps :
      (name : List ℕ) (W : Data D) (strict : Bool) (o : ℕ) → Keeps (put_at name W strict o)
  unfolding Keeps
  put_at-Keeps name W strict o heap v a heap' e =
      let (h, q, e₁) = bind-ok (put heap o name W strict) _ e in
      subst (Evolves heap) (ap (λ r. r.1) (ok-injective e₁))
        (put-Evolves heap o name W strict h v q)

  pub with_object-Keeps :
      {A : Type 0} (base : Data D) (f : ℕ → Eval D A)
      → ((o : ℕ) → Keeps (f o))
      → Keeps (with_object base f)
  with_object-Keeps (Data.object o) f k = k o
  with_object-Keeps Data.null f k = Keeps-fault D _ assertion
  with_object-Keeps Data.undefined f k = Keeps-fault D _ assertion
  with_object-Keeps (Data.boolean b) f k = Keeps-fault D _ assertion
  with_object-Keeps (Data.string s) f k = Keeps-fault D _ assertion
  with_object-Keeps (Data.number d) f k = Keeps-fault D _ assertion
  with_object-Keeps (Data.reference b n s) f k = Keeps-fault D _ assertion
  with_object-Keeps (Data.completion t x) f k = Keeps-fault D _ assertion

  -- the branches of `js_getValue` and `js_putValue` on a reference
  pub reference-Keeps :
      {A : Type 0} (b₁ b₂ b₃ : Bool) (base : Data D) (f : ℕ → Eval D A)
      → ((o : ℕ) → Keeps (f o))
      → Keeps (if b₁ then fail else if b₂ then (if b₃ then fail else with_object base f) else fail)
  reference-Keeps b₁ b₂ b₃ base f k =
      let no = Keeps-fault D _ assertion in
      Keeps-if b₁ _ _ no (Keeps-if b₂ _ _ (Keeps-if b₃ _ _ no (with_object-Keeps base f k)) no)

  pub js_get_value-Keeps : (value : Data D) → Keeps (js_get_value value)
  unfolding js_get_value
  js_get_value-Keeps (Data.reference base name strict) =
      reference-Keeps (js_is_unresolvable_reference base) (js_is_property_reference base)
        (js_has_primitive_base base) base (get_at name) (get_at-Keeps D name)
  js_get_value-Keeps (Data.object o) = Keeps-pure D _
  js_get_value-Keeps Data.null = Keeps-pure D _
  js_get_value-Keeps Data.undefined = Keeps-pure D _
  js_get_value-Keeps (Data.boolean b) = Keeps-pure D _
  js_get_value-Keeps (Data.string s) = Keeps-pure D _
  js_get_value-Keeps (Data.number d) = Keeps-pure D _
  js_get_value-Keeps (Data.completion t x) = Keeps-pure D _

  pub js_put_value-Keeps : (value W : Data D) → Keeps (js_put_value value W)
  unfolding js_put_value
  js_put_value-Keeps (Data.reference base name strict) W =
      reference-Keeps (js_is_unresolvable_reference base) (js_is_property_reference base)
        (js_has_primitive_base base) base (put_at name W strict) (put_at-Keeps name W strict)
  js_put_value-Keeps (Data.object o) W = Keeps-fault D _ assertion
  js_put_value-Keeps Data.null W = Keeps-fault D _ assertion
  js_put_value-Keeps Data.undefined W = Keeps-fault D _ assertion
  js_put_value-Keeps (Data.boolean b) W = Keeps-fault D _ assertion
  js_put_value-Keeps (Data.string s) W = Keeps-fault D _ assertion
  js_put_value-Keeps (Data.number d) W = Keeps-fault D _ assertion
  js_put_value-Keeps (Data.completion t x) W = Keeps-fault D _ assertion

  pub value_of-Keeps : (operand : Eval D (Data D)) → Keeps operand → Keeps (value_of operand)
  unfolding value_of
  value_of-Keeps operand k = Keeps-bind operand js_get_value k js_get_value-Keeps
