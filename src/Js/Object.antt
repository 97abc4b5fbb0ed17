-- ===== src/Js/Object.antt =====
-- libs/js/object.c. The heap is passed on by the functions that change it. Where the source writes
-- through the pointer to a property in the table, its payload in the table is replaced.
pub mod Define
pub mod Laws
pub mod Put
use saki_os.Base.{
  ℕ, zero, suc, Bool, true, false, not, ◌&&◌, List, [], ◌∷◌, Option, none, some, ◌==◌,
  if◌then◌else◌, set, Result, ok, fault, assertion, invalid, ◌>>=◌,
}
use saki_os.DataStruct.Hashmap.{hashmap_put, hashmap_get, hashmap_remove}
use saki_os.Js.Data.{Data, Property, Object, Heap, deref, js_is_true, js_alloc_property_desc}
use saki_os.Js.Descriptor.{
  is_set, js_is_accessor_descriptor, js_is_data_descriptor, js_is_generic_descriptor,
}
use saki_os.Unicode.Hash.Instance.{utf16_key, hashmap_new_utf16}

-- the two pointers are the same
abbrev pub same_flag : Option Bool → Option Bool → Bool
same_flag none none = true
same_flag (some true) (some true) = true
same_flag (some false) (some false) = true
same_flag _ _ = false

-- `if (!field) field = value`
abbrev pub default_to {ℓ} : {A : Type ℓ} → A → Option A → Option A
default_to v none = some v
default_to v (some w) = some w

-- `if (desc->field) current->field = desc->field`
abbrev pub overwrite {ℓ} : {A : Type ℓ} → Option A → Option A → Option A
overwrite none old = old
overwrite (some new) old = some new

module _ {D : Type 0} where
  unfoldable pub js_alloc_object : Object D
  js_alloc_object = record {
    properties = hashmap_new_utf16 11;
    prototype = none;
    clazz = none;
    extensible = true;
  }

  unfoldable pub get_own_property : Object D → List ℕ → Result (Option (Property D))
  get_own_property O P = hashmap_get none O.properties P

  unfoldable pub get_property : Heap D → Object D → List ℕ → Result (Option (Property D))
  unfolding get_own_property
  get_property heap O P = do
    prop ← get_own_property O P
    elim prop [
      | some p ↦ ok (some p)
      | none ↦ elim O.prototype [
        | none ↦ ok none
        | some o ↦ (do proto ← deref heap o; get_own_property proto P)
      ]
    ]

  -- A data property with no value gives a NULL, which is a fault here and not at its first use.
  unfoldable pub get : Heap D → Object D → List ℕ → Result (Data D)
  unfolding get_property
  get heap O P = do
    desc ← get_property heap O P
    elim desc [
      | none ↦ ok Data.undefined
      | some p ↦
          if js_is_data_descriptor (some p)
          then elim p.value [ none ↦ fault invalid | some v ↦ ok v ]
          else fault assertion
    ]

  -- what `canPut` returns at a property of its own
  abbrev pub can_put_own : Property D → Bool
  can_put_own desc =
      if js_is_accessor_descriptor (some desc)
      then not (is_set desc.set)
      else js_is_true desc.writable

  -- and at one that the prototype has
  abbrev pub can_put_inherited : Bool → Property D → Bool
  can_put_inherited extensible inherited =
      if js_is_accessor_descriptor (some inherited)
      then is_set inherited.set
      else if not extensible
      then false
      else js_is_true inherited.writable

  unfoldable pub can_put : Heap D → Object D → List ℕ → Result Bool
  unfolding get_own_property get_property
  can_put heap O P = do
    desc ← get_own_property O P
    elim desc [
      | some p ↦ ok (can_put_own p)
      | none ↦ elim O.prototype [
        | none ↦ ok O.extensible
        | some o ↦ (do
          proto ← deref heap o
          inherited ← get_property heap proto P
          elim inherited [
            | none ↦ ok O.extensible
            | some p ↦ ok (can_put_inherited O.extensible p)
          ])
      ]
    ]

  unfoldable pub has_property : Heap D → Object D → List ℕ → Result Bool
  unfolding get_property
  has_property heap O P = do desc ← get_property heap O P; ok (is_set desc)

  -- `assert(!"TypeError")` where `throw` holds, and `return false` else
  abbrev pub reject : Bool → Object D → Result (Bool × Object D)
  reject throw O = if throw then fault assertion else ok (false, O)

  -- A method returns the object with its changes, as the last component.
  unfoldable pub delete_property : Object D → List ℕ → Bool → Result (Bool × Object D)
  unfolding get_own_property
  delete_property O P throw = do
    desc ← get_own_property O P
    elim desc [
      | none ↦ ok (true, O)
      | some p ↦
          if js_is_true p.configurable
          then (do r ← hashmap_remove none O.properties P; ok (true, record O { properties = r.0 }))
          else reject throw O
    ]
