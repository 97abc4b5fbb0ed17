-- ===== src/Js/Object/Laws.antt =====
-- libs/js/object.c: what the operations on properties do to the properties that an object has.
use saki_os.Base.{
  ℕ, ◌≡◌, ◌⊎◌, refl, ap, sym, ◌∙◌, Bool, true, false, not, List, Option, none, some, if◌then◌else◌,
  inl, inr, Bool-cases, Result, ok, fault, assertion, arith,
}
use saki_os.DataStruct.Hashmap.Laws as Map
use saki_os.DataStruct.Hashmap.{or_null}
use saki_os.DataStruct.Key.{same, same_refl}
use saki_os.Js.Data.{Property, Object, js_is_true}
use saki_os.Js.Descriptor.{js_is_data_descriptor}
use saki_os.Js.Object.Define.{
  Verdict, filled, is_empty, attributes_verdict, kind_verdict, merge, store, decide, define_at,
  define_own_property,
}
use saki_os.Js.Object.{reject, get_own_property}
use saki_os.Unicode.Hash.Instance.{utf16_key, cmp-zero}

module _ {D : Type 0} where
  abbrev pub IsValid : Object D → Type 0
  IsValid O = Map.IsValid O.properties

  or_null-if :
      (b : Bool) (x : Option (Property D)) (o : Option (Option (Property D)))
      → or_null none (if b then some x else o) ≡ (if b then x else or_null none o)
  or_null-if true x o = refl
  or_null-if false x o = refl

  -- the property of a name that the object has itself
  unfoldable pub own : Object D → List ℕ → Option (Property D)
  own O P = or_null none (Map.view O.properties P)

  pub get_own_property-own :
      (O : Object D) (P : List ℕ) → IsValid O → get_own_property O P ≡ ok (own O P)
  unfolding get_own_property own
  get_own_property-own O P v = Map.get-view none P v

  -- `O'` has the property `desc` at `P`, and is else like `O`.
  pub record Stored (O : Object D) (P : List ℕ) (desc : Property D) (O' : Object D) : Type 0 where
    pub valid : IsValid O'
    pub reads : (Q : List ℕ) → own O' Q ≡ (if same P Q then some desc else own O Q)
    pub prototype : O'.prototype ≡ O.prototype
    pub extensible : O'.extensible ≡ O.extensible

  pub store-Stored :
      (O : Object D) (P : List ℕ) (desc : Property D)
      → IsValid O
      → (O' : Object D) × (store O P desc ≡ ok (true, O')) × Stored O P desc O'
  store-Stored O P desc v =
      let (hm, runs, valid, reads) = Map.put-view v P (some desc) in
      (
        record O { properties = hm },
        rw (runs) refl,
        record {
          valid = valid;
          reads = λ Q.
              unfold own in
              (ap (or_null none) (reads Q)
                ∙ or_null-if (same P Q) (some desc) (Map.view O.properties Q));
          prototype = refl;
          extensible = refl;
        },
      )

  pub own-same : (O : Object D) (P Q : List ℕ) → same P Q ≡ true → own O Q ≡ own O P
  own-same O P Q e = ap (own O) (sym (cmp-zero P Q e))

  own-Stored :
      (O : Object D) (P : List ℕ) (c : Property D) → IsValid O → own O P ≡ some c → Stored O P c O
  own-Stored O P c v e = record {
    valid = v;
    reads =
        λ Q. elim (Bool-cases (same P Q)) [ inl h ↦ rw h (own-same O P Q h ∙ e) | inr h ↦ rw h ];
    prototype = refl;
    extensible = refl;
  }

  -- the property that `defineOwnProperty` leaves where it succeeds
  abbrev pub defined : Option (Property D) → Property D → Property D
  defined none desc = filled desc
  defined (some current) desc = merge current desc

  -- `defineOwnProperty` fails an assertion, or refuses and changes nothing, which it does only without
  -- `throw`, or stores the property.
  abbrev pub Outcome : Object D → List ℕ → Property D → Bool → Result (Bool × Object D) → Type 0
  Outcome O P desc throw r =
      (r ≡ fault assertion)
      ⊎ (((r ≡ ok (false, O)) × (throw ≡ false))
          ⊎ ((O' : Object D) × (r ≡ ok (true, O')) × Stored O P (defined (own O P) desc) O'))

  reject-Outcome :
      (O : Object D) (P : List ℕ) (desc : Property D) (throw : Bool)
      → Outcome O P desc throw (reject throw O)
  reject-Outcome O P desc true = inl refl
  reject-Outcome O P desc false = inr (inl (refl, refl))

  decide-Outcome :
      (verdict : Verdict) (O : Object D) (P : List ℕ) (desc : Property D) (throw : Bool)
      (go_on : Result (Bool × Object D))
      → Outcome O P desc throw go_on
      → Outcome O P desc throw (decide verdict throw O go_on)
  decide-Outcome Verdict.pass O P desc throw go_on h = h
  decide-Outcome Verdict.refused O P desc throw go_on h = reject-Outcome O P desc throw
  decide-Outcome Verdict.halted O P desc throw go_on h = inl refl

  if-Outcome :
      (b : Bool) (O : Object D) (P : List ℕ) (desc : Property D) (throw : Bool)
      (x y : Result (Bool × Object D))
      → (b ≡ true → Outcome O P desc throw x)
      → (b ≡ false → Outcome O P desc throw y)
      → Outcome O P desc throw (if b then x else y)
  if-Outcome true O P desc throw x y hx hy = hx refl
  if-Outcome false O P desc throw x y hx hy = hy refl

  merge-is_empty : (c desc : Property D) → is_empty desc ≡ true → merge c desc ≡ c
  unfolding merge
  merge-is_empty c desc e = ground arith

  define_at-Outcome :
      (O : Object D) (P : List ℕ) (desc : Property D) (throw : Bool) (current : Option (Property D))
      → IsValid O
      → own O P ≡ current
      → Outcome O P desc throw (define_at current O P desc throw)
  unfolding define_at
  define_at-Outcome O P desc throw none v e =
      if-Outcome (not O.extensible) O P desc throw _ _ (λ _. reject-Outcome O P desc throw)
        λ _.
          let (O', runs, stored) = store-Stored O P (filled desc) v in
          inr (inr (O', runs, rw e stored))
  define_at-Outcome O P desc throw (some c) v e =
      if-Outcome (is_empty desc) O P desc throw _ _
        (λ empty. inr (inr (O, refl, rw (e, merge-is_empty c desc empty) (own-Stored O P c v e))))
        λ _.
          let (O', runs, stored) = store-Stored O P (merge c desc) v in
          decide-Outcome (attributes_verdict c desc) O P desc throw _ (
            decide-Outcome (kind_verdict c desc) O P desc throw _
              (inr (inr (O', runs, rw e stored))))

  pub define_own_property-Outcome :
      (O : Object D) (P : List ℕ) (desc : Property D) (throw : Bool)
      → IsValid O
      → Outcome O P desc throw (define_own_property O P desc throw)
  unfolding define_own_property
  define_own_property-Outcome O P desc throw v =
      rw (get_own_property-own O P v) (define_at-Outcome O P desc throw (own O P) v refl)

  -- A data property that is neither configurable nor writable.
  unfoldable pub IsFrozen : Property D → Type 0
  IsFrozen c =
      (js_is_data_descriptor (some c) ≡ true)
      × (js_is_true c.configurable ≡ false)
      × (js_is_true c.writable ≡ false)

  merge-IsFrozen :
      (c desc : Property D)
      → IsFrozen c
      → attributes_verdict c desc ≡ Verdict.pass
      → kind_verdict c desc ≡ Verdict.pass
      → ((merge c desc).value ≡ c.value) × IsFrozen (merge c desc)
  unfolding IsFrozen merge attributes_verdict kind_verdict
  merge-IsFrozen c desc f a k = ground (arith, f.0, f.1, f.2, a, k)

  decide-passes :
      (a k : Verdict) (throw : Bool) (O : Object D) (go_on : Result (Bool × Object D)) (b : Bool)
      (O' : Object D)
      → decide a throw O (decide k throw O go_on) ≡ ok (b, O')
      → (O' ≡ O) ⊎ ((a ≡ Verdict.pass) × (k ≡ Verdict.pass) × (go_on ≡ ok (b, O')))
  decide-passes Verdict.pass Verdict.pass throw O go_on b O' e = inr (refl, refl, e)
  decide-passes Verdict.pass Verdict.refused throw O go_on b O' e = inl (ground (arith, e))
  decide-passes Verdict.pass Verdict.halted throw O go_on b O' e = inl (ground (arith, e))
  decide-passes Verdict.refused k throw O go_on b O' e = inl (ground (arith, e))
  decide-passes Verdict.halted k throw O go_on b O' e = inl (ground (arith, e))

  -- a frozen property with the value of `c`
  abbrev pub KeepsFrozen : Object D → List ℕ → Property D → Type 0
  KeepsFrozen O P c = (c' : Property D) × (own O P ≡ some c') × IsFrozen c' × (c'.value ≡ c.value)

  -- A frozen property keeps its value and stays frozen, whatever `defineOwnProperty` is asked for.
  pub define_own_property-IsFrozen :
      (O : Object D) (P : List ℕ) (desc : Property D) (throw : Bool) (c : Property D) (b : Bool)
      (O' : Object D)
      → IsValid O
      → own O P ≡ some c
      → IsFrozen c
      → define_own_property O P desc throw ≡ ok (b, O')
      → KeepsFrozen O' P c
  unfolding define_own_property define_at
  define_own_property-IsFrozen O P desc throw c b O' v e f q =
      let q' : define_at (some c) O P desc throw ≡ ok (b, O') =
        rw (get_own_property-own O P v, e) at q in
      let kept : O' ≡ O → KeepsFrozen O' P c =
        λ h. (c, ap (λ x. own x P) h ∙ e, f, refl {a = c.value}) in
      elim (Bool-cases (is_empty desc)) [
        | inl empty ↦ kept (ground (arith, rw empty at q'))
        | inr full ↦
            elim (decide-passes (attributes_verdict c desc) (kind_verdict c desc) throw O
              (store O P (merge c desc)) b O' (rw full at q')) [
                | inl h ↦ kept h
                | inr (a, k, s) ↦
                    let (O₁, runs, stored) = store-Stored O P (merge c desc) v in
                    let m = merge-IsFrozen c desc f a k in
                    let same_object : O' ≡ O₁ = ground (arith, s, runs) in
                    (
                      merge c desc,
                      ap (λ x. own x P) same_object ∙ stored.reads P ∙ rw (same_refl P),
                      m.1,
                      m.0,
                    )
              ]
      ]
