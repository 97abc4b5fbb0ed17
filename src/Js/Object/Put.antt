-- ===== src/Js/Object/Put.antt =====
-- `put` and `get` of libs/js/object.c together.
use saki_os.Base.{
  ℕ, zero, suc, ◌≡◌, refl, ap, sym, ◌∙◌, Bool, true, false, not, List, [], ◌∷◌, Option, none, some,
  if◌then◌else◌, set, ok, fault, assertion, ok-injective, ◌>>=◌, arith,
}
use saki_os.DataStruct.Key.{same, same_refl}
use saki_os.Js.Data.{Data, Property, Object, Heap, deref, js_is_true, js_alloc_property_desc}
use saki_os.Js.Descriptor.{is_set, js_is_data_descriptor}
use saki_os.Js.Object.Define.{
  Verdict, filled, attributes_verdict, store, define_at, put, value_desc, new_desc,
}
use saki_os.Js.Object.Laws.{IsValid, own, get_own_property-own, Stored, store-Stored}
use saki_os.Js.Object.{reject, get, can_put, can_put_own, same_flag}
use saki_os.Unicode.Hash.Instance.{utf16_key}

same_flag-none : (x : Option Bool) → is_set x ≡ true → same_flag none x ≡ false
same_flag-none none e = sym e
same_flag-none (some true) e = refl
same_flag-none (some false) e = refl

module _ {D : Type 0} where
  set-deref : (heap : Heap D) (o : ℕ) (O : Object D) → deref heap o ≡ ok O → set heap o O ≡ heap
  unfolding deref
  set-deref [] o O e = refl
  set-deref (x ∷ heap) zero O e = ap (λ y. y ∷ heap) (sym (ok-injective e))
  set-deref (x ∷ heap) (suc o) O e = ap (λ h. x ∷ h) (set-deref heap o O e)

  pub deref-set :
      (heap : Heap D) (o : ℕ) (O O' : Object D)
      → deref heap o ≡ ok O
      → deref (set heap o O') o ≡ ok O'
  unfolding deref
  deref-set [] o O O' e = ground arith
  deref-set (x ∷ heap) zero O O' e = refl
  deref-set (x ∷ heap) (suc o) O O' e = deref-set heap o O O' e

  -- a data property that may be written and that may not be configured
  pub record IsPermanent (c : Property D) : Type 0 where
    pub is_data : js_is_data_descriptor (some c) ≡ true
    pub no_getter : c.get ≡ none
    pub writable : c.writable ≡ some true
    pub permanent : js_is_true c.configurable ≡ false
    pub enumerable : is_set c.enumerable ≡ true

  can_put-own :
      (heap : Heap D) (O : Object D) (P : List ℕ) (c : Property D)
      → IsValid O
      → own O P ≡ some c
      → can_put heap O P ≡ ok (can_put_own c)
  unfolding can_put
  can_put-own heap O P c v e = rw (get_own_property-own O P v, e) refl

  can_put_own-IsPermanent : (c : Property D) → IsPermanent c → can_put_own c ≡ true
  can_put_own-IsPermanent c p = rw (p.no_getter, p.writable) refl

  attributes_verdict-IsPermanent :
      (c : Property D) (V : Data D)
      → IsPermanent c
      → attributes_verdict c (value_desc V) ≡ Verdict.refused
  unfolding attributes_verdict js_alloc_property_desc
  attributes_verdict-IsPermanent c V p =
      rw (p.permanent, same_flag-none c.enumerable p.enumerable) refl

  set-reject :
      (heap : Heap D) (o : ℕ) (O : Object D) (throw : Bool)
      → deref heap o ≡ ok O
      → (do r ← reject throw O; ok (set heap o r.1)) ≡ (if throw then fault assertion else ok heap)
  set-reject heap o O true at = refl
  set-reject heap o O false at = ap ok (set-deref heap o O at)

  -- A property that is writable but not configurable cannot be assigned: without `throw` the assignment
  -- is dropped, and with it an assertion fails.
  pub put-IsPermanent :
      (heap : Heap D) (o : ℕ) (O : Object D) (P : List ℕ) (V : Data D) (throw : Bool)
      (c : Property D)
      → deref heap o ≡ ok O
      → IsValid O
      → own O P ≡ some c
      → IsPermanent c
      → put heap o P V throw ≡ (if throw then fault assertion else ok heap)
  unfolding put
  put-IsPermanent heap o O P V throw c at v e p =
      rw
        (
          at,
          can_put-own heap O P c v e,
          can_put_own-IsPermanent c p,
          get_own_property-own O P v,
          e,
          p.is_data,
          attributes_verdict-IsPermanent c V p,
        )
        (set-reject heap o O throw at)

  -- an object that may be extended, that has no prototype and no property `P`
  pub record IsOpen (O : Object D) (P : List ℕ) : Type 0 where
    pub absent : own O P ≡ none
    pub alone : O.prototype ≡ none
    pub extends : O.extensible ≡ true

  -- `O` has the value `V` at `P`, as an ordinary property.
  pub record Assigned (heap : Heap D) (O : Object D) (P : List ℕ) (V : Data D) (O' : Object D)
      : Type 0 where
    pub valid : IsValid O'
    pub value : get heap O' P ≡ ok V
    pub may_assign : can_put heap O' P ≡ ok true
    pub others : (Q : List ℕ) → same P Q ≡ false → own O' Q ≡ own O Q

  get-own :
      (heap : Heap D) (O : Object D) (P : List ℕ) (V : Data D)
      → IsValid O
      → own O P ≡ some (new_desc V)
      → get heap O P ≡ ok V
  unfolding get
  get-own heap O P V v e = rw (get_own_property-own O P v, e) refl

  Stored-Assigned :
      (heap : Heap D) (O : Object D) (P : List ℕ) (V : Data D) (O' : Object D)
      → Stored O P (new_desc V) O'
      → Assigned heap O P V O'
  unfolding js_alloc_property_desc
  Stored-Assigned heap O P V O' s =
      let e : own O' P ≡ some (new_desc V) = s.reads P ∙ rw (same_refl P) refl in
      record {
        valid = s.valid;
        value = get-own heap O' P V s.valid e;
        may_assign = can_put-own heap O' P (new_desc V) s.valid e;
        others = λ Q h. s.reads Q ∙ rw h refl;
      }

  can_put-IsOpen :
      (heap : Heap D) (O : Object D) (P : List ℕ)
      → IsValid O
      → IsOpen O P
      → can_put heap O P ≡ ok true
  unfolding can_put
  can_put-IsOpen heap O P v n = rw (get_own_property-own O P v, n.absent, n.alone, n.extends) refl

  pub define_at-runs :
      (O : Object D) (P : List ℕ) (desc : Property D) (throw : Bool) (O' : Object D)
      → O.extensible ≡ true
      → store O P (filled desc) ≡ ok (true, O')
      → define_at none O P desc throw ≡ ok (true, O')
  unfolding define_at
  define_at-runs O P desc throw O' e runs =
      ap (λ b. if not b then reject throw O else store O P (filled desc)) e ∙ runs

  put-runs :
      (heap : Heap D) (o : ℕ) (O : Object D) (P : List ℕ) (V : Data D) (throw : Bool)
      (O' : Object D)
      → deref heap o ≡ ok O
      → IsValid O
      → IsOpen O P
      → store O P (filled (new_desc V)) ≡ ok (true, O')
      → put heap o P V throw ≡ ok (set heap o O')
  unfolding put
  put-runs heap o O P V throw O' at v n runs =
      rw
        (
          at,
          can_put-IsOpen heap O P v n,
          get_own_property-own O P v,
          n.absent,
          define_at-runs O P (new_desc V) throw O' n.extends runs,
          n.alone,
        )
        refl

  -- Assigning a property that such an object does not have succeeds. The value can then be read, the
  -- property can be assigned again, and the other properties are what they were.
  pub put-get :
      (heap : Heap D) (o : ℕ) (O : Object D) (P : List ℕ) (V : Data D) (throw : Bool)
      → deref heap o ≡ ok O
      → IsValid O
      → IsOpen O P
      → (heap' : Heap D) × (O' : Object D) × (put heap o P V throw ≡ ok heap')
        × (deref heap' o ≡ ok O')
        × Assigned heap' O P V O'
  unfolding filled
  put-get heap o O P V throw at v n =
      let (O', runs, stored) = store-Stored O P (filled (new_desc V)) v in
      (
        set heap o O',
        O',
        put-runs heap o O P V throw O' at v n runs,
        deref-set heap o O O' at,
        Stored-Assigned (set heap o O') O P V O' (stored),
      )
