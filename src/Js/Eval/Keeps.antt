-- ===== src/Js/Eval/Keeps.antt =====
-- What `put` of libs/js/object.c leaves of a heap: its objects stay valid, and frozen properties keep
-- their values.
pub mod Run
pub mod Whole
use saki_os.Base.{
  ℕ, zero, suc, ◌≡◌, ◌⊎◌, refl, ap, sym, subst, ◌∙◌, Bool, true, false, not, List, [], ◌∷◌, Option,
  none, some, if◌then◌else◌, set, inl, inr, Bool-cases, Result, ok, fault, assertion, ok-injective,
  bind-ok, ◌>>=◌, arith,
}
use saki_os.DataStruct.Key.{same}
use saki_os.Js.Data.{Data, Property, Object, Heap, deref}
use saki_os.Js.Object.Define.{define_own_property, put, value_desc, new_desc}
use saki_os.Js.Object.Laws.{
  IsValid, own, own-same, define_own_property-Outcome, IsFrozen, KeepsFrozen,
  define_own_property-IsFrozen, Stored,
}
use saki_os.Js.Object.Put.{deref-set}
use saki_os.Js.Eval.{Eval}
use saki_os.Js.Descriptor.{js_is_data_descriptor, js_is_accessor_descriptor}
use saki_os.Unicode.Hash.Instance.{utf16_key}
use saki_os.Js.Object.{can_put, get_own_property, get_property}

module _ {D : Type 0} where
  unfoldable pub HeapIsValid : Heap D → Type 0
  HeapIsValid heap = (o : ℕ) (O : Object D) → deref heap o ≡ ok O → IsValid O

  -- every frozen property of `O` is one of `O'`, with its value
  unfoldable pub KeepsAll : Object D → Object D → Type 0
  KeepsAll O O' = (P : List ℕ) (c : Property D) → own O P ≡ some c → IsFrozen c → KeepsFrozen O' P c

  pub record Evolves (heap heap' : Heap D) : Type 0 where
    pub valid : HeapIsValid heap'
    pub keeps :
        (o : ℕ) (O : Object D)
        → deref heap o ≡ ok O
        → (O' : Object D) × (deref heap' o ≡ ok O') × KeepsAll O O'

  KeepsAll-refl : (O : Object D) → KeepsAll O O
  unfolding KeepsAll
  KeepsAll-refl O P c e f = (c, e, f, refl)

  KeepsAll-trans : (O₁ O₂ O₃ : Object D) → KeepsAll O₁ O₂ → KeepsAll O₂ O₃ → KeepsAll O₁ O₃
  unfolding KeepsAll
  KeepsAll-trans O₁ O₂ O₃ k l P c e f =
      let (c₂, e₂, f₂, v₂) = k P c e f in
      let (c₃, e₃, f₃, v₃) = l P c₂ e₂ f₂ in (c₃, e₃, f₃, v₃ ∙ v₂)

  pub Evolves-refl : (heap : Heap D) → HeapIsValid heap → Evolves heap heap
  Evolves-refl heap v = record { valid = v; keeps = λ o O e. (O, e, KeepsAll-refl O) }

  pub Evolves-trans : {h₁ h₂ h₃ : Heap D} → Evolves h₁ h₂ → Evolves h₂ h₃ → Evolves h₁ h₃
  Evolves-trans a b = record {
    valid = b.valid;
    keeps = λ o O e.
        let (O₂, e₂, k₂) = a.keeps o O e in
        let (O₃, e₃, k₃) = b.keeps o O₂ e₂ in (O₃, e₃, KeepsAll-trans O O₂ O₃ k₂ k₃);
  }

  -- One object changes.
  deref-set_cases :
      (heap : Heap D) (o p : ℕ) (O' : Object D) → (p ≡ o) ⊎ (deref (set heap o O') p ≡ deref heap p)
  unfolding deref
  deref-set_cases [] o p O' = inr refl
  deref-set_cases (x ∷ heap) zero zero O' = inl refl
  deref-set_cases (x ∷ heap) zero (suc p) O' = inr refl
  deref-set_cases (x ∷ heap) (suc o) zero O' = inr refl
  deref-set_cases (x ∷ heap) (suc o) (suc p) O' = elim (deref-set_cases heap o p O') [
    | inl e ↦ inl (ap suc e)
    | inr e ↦ inr e
  ]

  set-Evolves :
      (heap : Heap D) (o : ℕ) (O O' : Object D)
      → HeapIsValid heap
      → deref heap o ≡ ok O
      → IsValid O'
      → KeepsAll O O'
      → Evolves heap (set heap o O')
  unfolding HeapIsValid
  set-Evolves heap o O O' v at v' k = record {
    valid = λ p X e. elim (deref-set_cases heap o p O') [
      | inl h ↦
          subst IsValid
            (ok-injective (sym (deref-set heap o O O' at) ∙ ap (deref (set heap o O')) (sym h) ∙ e))
            v'
      | inr h ↦ v p X (sym h ∙ e)
    ];
    keeps = λ p X e. elim (deref-set_cases heap o p O') [
      | inl h ↦ (
        O',
        ap (deref (set heap o O')) h ∙ deref-set heap o O O' at,
        subst (λ Y. KeepsAll Y O') (ok-injective (sym at ∙ ap (deref heap) (sym h) ∙ e)) k,
      )
      | inr h ↦ (X, h ∙ e, KeepsAll-refl X)
    ];
  }

  Stored-KeepsAll :
      (O : Object D) (P : List ℕ) (desc : Property D) (O' : Object D)
      → Stored O P desc O'
      → ((c : Property D) → own O P ≡ some c → IsFrozen c → KeepsFrozen O' P c)
      → KeepsAll O O'
  unfolding KeepsAll
  Stored-KeepsAll O P desc O' s k Q c e f = elim (Bool-cases (same P Q)) [
    | inl h ↦
        let (c', e', f', v') = k c (sym (own-same O P Q h) ∙ e) f in
        (c', own-same O' P Q h ∙ e', f', v')
    | inr h ↦ (c, s.reads Q ∙ rw h e, f, refl)
  ]

  define_own_property-KeepsAll :
      (O : Object D) (P : List ℕ) (desc : Property D) (throw : Bool) (b : Bool) (O' : Object D)
      → IsValid O
      → define_own_property O P desc throw ≡ ok (b, O')
      → IsValid O' × KeepsAll O O'
  define_own_property-KeepsAll O P desc throw b O' v q =
      elim (define_own_property-Outcome O P desc throw v) [
        | inl h ↦ absurd (cc)
        | inr (inl (h, _)) ↦
            let e : O ≡ O' = ap (λ r. r.1) (ok-injective (sym h ∙ q)) in
            (subst IsValid e v, subst (KeepsAll O) e (KeepsAll-refl O))
        | inr (inr (O₁, h, s)) ↦
            let e : O₁ ≡ O' = ap (λ r. r.1) (ok-injective (sym h ∙ q)) in
            (
              subst IsValid e s.valid,
              subst (KeepsAll O) e (
                  Stored-KeepsAll O P _ O₁ s λ c own_c f.
                    subst (λ X. KeepsFrozen X P c) (sym e)
                      (define_own_property-IsFrozen O P desc throw c b O' v own_c f q)),
            )
      ]

  -- The heap of a run that returns has evolved from the one before.
  pub Keeps : {A : Type 0} → Eval D A → Type 0
  Keeps {A} m =
      (heap : Heap D)
      → HeapIsValid heap
      → (a : A) (heap' : Heap D) → m heap ≡ ok (a, heap')
      → Evolves heap heap'

  define-Evolves :
      (heap : Heap D) (o : ℕ) (O : Object D) (P : List ℕ) (desc : Property D) (throw : Bool)
      (heap' : Heap D)
      → HeapIsValid heap
      → deref heap o ≡ ok O
      → (do r ← define_own_property O P desc throw; ok (set heap o r.1)) ≡ ok heap'
      → Evolves heap heap'
  unfolding HeapIsValid
  define-Evolves heap o O P desc throw heap' v at e =
      let ((b, O'), q, h) =
        bind-ok (define_own_property O P desc throw) (λ r. ok (set heap o r.1)) e in
      let (v', k) = define_own_property-KeepsAll O P desc throw b O' (v o O at) q in
      subst (Evolves heap) (ok-injective h) (set-Evolves heap o O O' v at v' k)

  if-Evolves :
      (b : Bool) (x y : Result (Heap D)) (heap heap' : Heap D)
      → (x ≡ ok heap' → Evolves heap heap')
      → (y ≡ ok heap' → Evolves heap heap')
      → (if b then x else y) ≡ ok heap'
      → Evolves heap heap'
  if-Evolves true x y heap heap' hx hy e = hx e
  if-Evolves false x y heap heap' hx hy e = hy e

  put-Evolves :
      (heap : Heap D) (o : ℕ) (P : List ℕ) (V : Data D) (throw : Bool) (heap' : Heap D)
      → HeapIsValid heap
      → put heap o P V throw ≡ ok heap'
      → Evolves heap heap'
  unfolding put
  put-Evolves heap o P V throw heap' v e =
      let (O, at, e₁) = bind-ok (deref heap o) _ e in
      let (allowed, _, e₂) = bind-ok (can_put heap O P) _ e₁ in
      if-Evolves (not allowed) _ _ heap heap'
        (if-Evolves throw _ _ heap heap' (λ q. absurd (cc))
          (λ q. subst (Evolves heap) (ok-injective q) (Evolves-refl heap v)))
        (λ q.
          let (own, _, q₁) = bind-ok (get_own_property O P) _ q in
          if-Evolves (js_is_data_descriptor own) _ _ heap heap'
            (define-Evolves heap o O P (value_desc V) throw heap' v at)
            (λ q₂.
              let (desc, _, q₃) = bind-ok (get_property heap O P) _ q₂ in
              if-Evolves (js_is_accessor_descriptor desc) _ _ heap heap' (λ z. absurd (cc))
                (define-Evolves heap o O P (new_desc V) throw heap' v at) q₃)
            q₁)
        e₂
