-- ===== src/Js/Global/Survives.antt =====
-- The global object of libs/js/global.c behind a tree that libs/js/internal.c evaluates.
use saki_os.Base.{
  ℕ, ◌≡◌, refl, sym, subst, ◌∙◌, true, false, List, none, some, ok, ok-injective, arith,
}
use saki_os.DataStruct.Hashmap.Laws as Map
use saki_os.DataStruct.Hashmap.{hashmap_new}
use saki_os.DataStruct.Hashmap.Chain.{find}
use saki_os.DataStruct.Key.{same, same_refl}
use saki_os.Js.Conversion.Text.{nan_str, inf_str}
use saki_os.Js.Conversion.{undef_str}
use saki_os.Js.Data.{Data, Property, Object, Heap, deref}
use saki_os.Js.Eval.Keeps.{HeapIsValid, KeepsAll}
use saki_os.Js.Eval.Keeps.Whole.{js_eval_node-Evolves}
use saki_os.Js.Eval.Nodes.{Context, js_eval_node}
use saki_os.Js.Float.{Float}
use saki_os.Js.Global.{create_readonly_desc, js_create_global}
use saki_os.Js.Node.{Node}
use saki_os.Js.Object.Define.{filled, define_at, define_own_property}
use saki_os.Js.Object.Put.{define_at-runs}
use saki_os.Js.Object.Laws.{IsValid, own, get_own_property-own, Stored, store-Stored, IsFrozen}
use saki_os.Js.Object.{js_alloc_object, get}
use saki_os.Unicode.Hash.Instance.{utf16_key, hashmap_new_utf16}
use saki_os.Unicode.Hash.{unicode_utf16_cmp, unicode_utf16_hash}

names :
    (same nan_str inf_str ≡ false)
    × (same nan_str undef_str ≡ false)
    × (same inf_str undef_str ≡ false)
    × (same inf_str nan_str ≡ false)
    × (same undef_str nan_str ≡ false)
    × (same undef_str inf_str ≡ false)
unfolding unicode_utf16_cmp
names = (refl, refl, refl, refl, refl, refl)

module _ {D : Type 0} where
  -- a new property of an object that may be extended
  define-new :
      (O : Object D) (P : List ℕ) (v : Data D)
      → IsValid O
      → own O P ≡ none
      → O.extensible ≡ true
      → (O' : Object D) × (define_own_property O P (create_readonly_desc v) true ≡ ok (true, O'))
        × Stored O P (create_readonly_desc v) O'
  unfolding define_own_property define_at filled create_readonly_desc
  define-new O P v valid e x =
      let (O', runs, stored) = store-Stored O P (create_readonly_desc v) valid in
      (
        O',
        rw (get_own_property-own O P valid, e)
            (define_at-runs O P (create_readonly_desc v) true O' x runs),
        stored,
      )

  start : Object D
  start = record {
    properties = hashmap_new_utf16 11;
    prototype = none;
    clazz = some undef_str;
    extensible = true;
  }

  start-IsValid : IsValid start
  unfolding start hashmap_new_utf16
  start-IsValid = Map.new-IsValid ⦃k = utf16_key⦄ 11 (omega arith)

  start-own : (own start nan_str ≡ none) × (own start inf_str ≡ none) × (own start undef_str ≡ none)
  unfolding start own Map.view find hashmap_new_utf16 hashmap_new unicode_utf16_hash
  start-own = (refl, refl, refl)

  abbrev pub infinity : Float D → D
  infinity float = float.div (float.of_int 1) (float.of_int 0)

  -- the global object with its three properties
  pub record IsGlobal (float : Float D) (O : Object D) : Type 0 where
    pub valid : IsValid O
    pub nan_at : own O nan_str ≡ some (create_readonly_desc (Data.number float.nan))
    pub inf_at : own O inf_str ≡ some (create_readonly_desc (Data.number (infinity float)))
    pub undef_at : own O undef_str ≡ some (create_readonly_desc Data.undefined)

  -- what `Stored` says of the stored property and of another one
  stored_at :
      (O : Object D) (P : List ℕ) (desc : Property D) (O' : Object D)
      → Stored O P desc O'
      → own O' P ≡ some desc
  stored_at O P desc O' s = s.reads P ∙ rw (same_refl P) refl

  other_at :
      (O : Object D) (P Q : List ℕ) (desc : Property D) (O' : Object D)
      → Stored O P desc O'
      → same P Q ≡ false
      → own O' Q ≡ own O Q
  other_at O P Q desc O' s h = s.reads Q ∙ rw h refl

  -- For every arithmetic `js_createGlobal` returns, and its object is valid and has NaN, Infinity and
  -- undefined as properties that are neither writable, enumerable nor configurable.
  pub js_create_global-IsGlobal :
      (float : Float D) → (O : Object D) × (js_create_global float ≡ ok O) × IsGlobal float O
  unfolding js_create_global js_alloc_object start
  js_create_global-IsGlobal float =
      let (n, i, u) = start-own in
      let (ni, nu, iu, in', un, ui) = names in
      let (O₁, r₁, s₁) = define-new start nan_str (Data.number float.nan) start-IsValid n refl in
      let (O₂, r₂, s₂) =
        define-new O₁ inf_str (Data.number (infinity float)) s₁.valid (other_at _ _ _ _ _ s₁ ni ∙ i)
          s₁.extensible in
      let (O₃, r₃, s₃) =
        define-new O₂ undef_str Data.undefined s₂.valid
          (other_at _ _ _ _ _ s₂ iu ∙ other_at _ _ _ _ _ s₁ nu ∙ u)
          (s₂.extensible ∙ s₁.extensible) in
      (
        O₃,
        rw (r₁, r₂, r₃) refl,
        record {
          valid = s₃.valid;
          nan_at = other_at _ _ _ _ _ s₃ un ∙ other_at _ _ _ _ _ s₂ in' ∙ stored_at _ _ _ _ s₁;
          inf_at = other_at _ _ _ _ _ s₃ ui ∙ stored_at _ _ _ _ s₂;
          undef_at = stored_at _ _ _ _ s₃;
        },
      )

  get-IsFrozen :
      (heap : Heap D) (O : Object D) (P : List ℕ) (c : Property D) (v : Data D)
      → IsValid O
      → own O P ≡ some c
      → IsFrozen c
      → c.value ≡ some v
      → get heap O P ≡ ok v
  unfolding get IsFrozen
  get-IsFrozen heap O P c v valid e f q = rw (get_own_property-own O P valid, e, f.0, q) refl

  get-KeepsAll :
      (heap : Heap D) (O O' : Object D) (P : List ℕ) (v : Data D)
      → IsValid O'
      → KeepsAll O O'
      → own O P ≡ some (create_readonly_desc v)
      → get heap O' P ≡ ok v
  unfolding create_readonly_desc IsFrozen KeepsAll
  get-KeepsAll heap O O' P v valid keeps e =
      let (c, own_c, f, q) = keeps P (create_readonly_desc v) e (refl, refl, refl) in
      get-IsFrozen heap O' P c v valid own_c f q

  -- the values of the three properties of the global object
  pub record HasConstants (float : Float D) (heap : Heap D) (O : Object D) : Type 0 where
    pub nan : get heap O nan_str ≡ ok (Data.number float.nan)
    pub infinity_value :
        get heap O inf_str ≡ ok (Data.number (float.div (float.of_int 1) (float.of_int 0)))
    pub undefined : get heap O undef_str ≡ ok Data.undefined

  -- When a tree is evaluated on a heap of valid objects that has the object of `js_createGlobal`, and
  -- that returns, the object is there with its NaN, Infinity and undefined, whatever the tree assigns.
  pub js_create_global-HasConstants :
      (float : Float D) (context : Context) (n : Node D) (heap heap' : Heap D) (o : ℕ) (v : Data D)
      (O : Object D)
      → js_create_global float ≡ ok O
      → HeapIsValid heap
      → deref heap o ≡ ok O
      → js_eval_node float context n heap ≡ ok (v, heap')
      → (O' : Object D) × (deref heap' o ≡ ok O') × HasConstants float heap' O'
  unfolding HeapIsValid
  js_create_global-HasConstants float context n heap heap' o v O returned valid at e =
      let (O₁, runs, g₁) = js_create_global-IsGlobal float in
      let g : IsGlobal float O = subst (IsGlobal float) (ok-injective (sym runs ∙ returned)) g₁ in
      let evolves = js_eval_node-Evolves float context n heap v heap' valid e in
      let (O', at', keeps) = evolves.keeps o O at in
      let valid' = evolves.valid o O' at' in
      (
        O',
        at',
        record {
          nan = get-KeepsAll heap' O O' nan_str _ valid' keeps g.nan_at;
          infinity_value = get-KeepsAll heap' O O' inf_str _ valid' keeps g.inf_at;
          undefined = get-KeepsAll heap' O O' undef_str _ valid' keeps g.undef_at;
        },
      )
