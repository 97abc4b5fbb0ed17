-- ===== src/Js/Data.antt =====
-- The data of include/js/type.h and the allocators of libs/js/type.c. A pointer to immutable data is
-- that data, and an object is its index in the heap; each boolean is one of the two constants of
-- `js_init`, so that pointers to booleans are equal just when the booleans are.
use saki_os.Base.{
  ℕ, zero, suc, Bool, false, List, [], ◌∷◌, Option, none, some, Result, ok, fault, invalid,
}
use saki_os.DataStruct.Hashmap.{Hashmap}

-- `enum js_completion_type_t`
pub data CompletionType : Type 0 where
  completion_normal completion_break completion_continue : CompletionType
  completion_return completion_throw : CompletionType

-- `reference` is a `js_reference_t`, with base, name and strictness. A completion is made with no
-- target.
pub data Data (D : Type 0) : Type 0 where
  null : Data D
  undefined : Data D
  boolean : Bool → Data D
  string : List ℕ → Data D
  number : D → Data D
  object : ℕ → Data D
  reference : Data D → List ℕ → Bool → Data D
  completion : CompletionType → Data D → Data D

-- `data->type`, by `enum js_data_type_t`
abbrev pub type : {D : Type 0} → Data D → ℕ
type Data.null = 0
type Data.undefined = 1
type (Data.boolean b) = 2
type (Data.string s) = 3
type (Data.number d) = 4
type (Data.object o) = 5
type (Data.reference base name strict) = 6
type (Data.completion t v) = 7

-- A field is `none` where its pointer is NULL; the attributes point to booleans only.
pub record Property (D : Type 0) : Type 0 where
  pub value : Option (Data D)
  pub get : Option (Data D)
  pub set : Option (Data D)
  pub writable : Option Bool
  pub enumerable : Option Bool
  pub configurable : Option Bool

unfoldable pub js_alloc_property_desc : {D : Type 0} → Property D
js_alloc_property_desc = record {
  value = none;
  get = none;
  set = none;
  writable = none;
  enumerable = none;
  configurable = none;
}

-- `js_isTrue` at a field that may be NULL
abbrev pub js_is_true : Option Bool → Bool
js_is_true none = false
js_is_true (some b) = b

-- The methods are always those of libs/js/object.c. A property that is not there is `none`.
pub record Object (D : Type 0) : Type 0 where
  pub properties : Hashmap (List ℕ) (Option (Property D))
  pub prototype : Option ℕ
  pub clazz : Option (List ℕ)
  pub extensible : Bool

abbrev pub Heap : Type 0 → Type 0
Heap D = List (Object D)

module _ {D : Type 0} where
  -- the object that a pointer points to
  unfoldable pub deref : Heap D → ℕ → Result (Object D)
  deref [] o = fault invalid
  deref (x ∷ heap) zero = ok x
  deref (x ∷ heap) (suc o) = deref heap o
