-- ===== src/Js/Object/Define.antt =====
-- `defineOwnProperty` and `put` of libs/js/object.c.
use saki_os.Base.{
  ℕ, Bool, true, false, not, ◌&&◌, ◌||◌, List, Option, none, some, if◌then◌else◌, set, Result, ok,
  fault, assertion, ◌>>=◌,
}
use saki_os.DataStruct.Hashmap.{hashmap_put}
use saki_os.Js.Data.{Data, Property, Object, Heap, deref, js_is_true, js_alloc_property_desc}
use saki_os.Js.Descriptor.{
  is_set, js_is_accessor_descriptor, js_is_data_descriptor, js_is_generic_descriptor,
}
use saki_os.Js.Object.{
  same_flag, default_to, overwrite, reject, get_own_property, get_property, can_put,
}
use saki_os.Unicode.Hash.Instance.{utf16_key}

-- what the checks on a property that is there come to
pub data Verdict : Type 0 where
  pass refused halted : Verdict

module _ {D : Type 0} where
  -- the descriptor that is stored where the property is new
  unfoldable pub filled : Property D → Property D
  filled desc =
      if js_is_generic_descriptor (some desc) || js_is_data_descriptor (some desc)
      then record desc {
        value = default_to Data.undefined desc.value;
        writable = default_to false desc.writable;
        enumerable = default_to false desc.enumerable;
        configurable = default_to false desc.configurable;
      }
      else record desc {
        get = default_to Data.undefined desc.get;
        set = default_to Data.undefined desc.set;
        enumerable = default_to false desc.enumerable;
        configurable = default_to false desc.configurable;
      }

  abbrev pub is_empty : Property D → Bool
  is_empty desc =
      not (is_set desc.value)
      && not (is_set desc.get)
      && not (is_set desc.set)
      && not (is_set desc.writable)
      && not (is_set desc.enumerable)
      && not (is_set desc.configurable)

  unfoldable pub attributes_verdict : Property D → Property D → Verdict
  attributes_verdict current desc =
      if js_is_true current.configurable
      then Verdict.pass
      else if js_is_true desc.configurable
      then Verdict.refused
      else if not (same_flag desc.enumerable current.enumerable)
      then Verdict.refused
      else Verdict.pass

  unfoldable pub kind_verdict : Property D → Property D → Verdict
  kind_verdict current desc =
      let current_data = js_is_data_descriptor (some current) in
      let desc_data = js_is_data_descriptor (some desc) in
      if js_is_generic_descriptor (some desc)
      then Verdict.pass
      else if not (current_data && desc_data || not current_data && not desc_data)
      then (if not (js_is_true current.configurable) then Verdict.refused else Verdict.halted)
      else if current_data && desc_data
      then (if js_is_true current.configurable
          then Verdict.pass
          else if not (js_is_true current.writable) && js_is_true desc.writable
          then Verdict.refused
          else if not (js_is_true current.writable)
          then Verdict.halted
          else Verdict.pass)
      else if not (js_is_true current.configurable)
      then Verdict.halted
      else Verdict.pass

  unfoldable pub merge : Property D → Property D → Property D
  merge current desc = record {
    value = overwrite desc.value current.value;
    get = overwrite desc.get current.get;
    set = overwrite desc.set current.set;
    writable = overwrite desc.writable current.writable;
    enumerable = overwrite desc.enumerable current.enumerable;
    configurable = overwrite desc.configurable current.configurable;
  }

  abbrev pub store : Object D → List ℕ → Property D → Result (Bool × Object D)
  store O P desc = do
    r ← hashmap_put O.properties P (some desc)
    ok (true, record O { properties = r.0 })

  abbrev pub decide :
      Verdict → Bool → Object D → Result (Bool × Object D) → Result (Bool × Object D)
  decide Verdict.pass throw O go_on = go_on
  decide Verdict.refused throw O go_on = reject throw O
  decide Verdict.halted throw O go_on = fault assertion

  -- behind `getOwnProperty` in `defineOwnProperty`
  unfoldable pub define_at :
      Option (Property D) → Object D → List ℕ → Property D → Bool → Result (Bool × Object D)
  unfolding filled attributes_verdict kind_verdict merge
  define_at none O P desc throw =
      if not O.extensible then reject throw O else store O P (filled desc)
  define_at (some current) O P desc throw =
      if is_empty desc
      then ok (true, O)
      else decide (attributes_verdict current desc) throw O
          (decide (kind_verdict current desc) throw O (store O P (merge current desc)))

  unfoldable pub define_own_property :
      Object D → List ℕ → Property D → Bool → Result (Bool × Object D)
  unfolding get_own_property define_at
  define_own_property O P desc throw = do
    current ← get_own_property O P
    define_at current O P desc throw

  abbrev pub value_desc : Data D → Property D
  value_desc V = record js_alloc_property_desc { value = some V }

  abbrev pub new_desc : Data D → Property D
  new_desc V = record js_alloc_property_desc {
    value = some V;
    writable = some true;
    enumerable = some true;
    configurable = some true;
  }

  -- `put` on the object at the index `o`
  unfoldable pub put : Heap D → ℕ → List ℕ → Data D → Bool → Result (Heap D)
  unfolding can_put get_own_property get_property define_own_property js_alloc_property_desc
  put heap o P V throw = do
    O ← deref heap o
    allowed ← can_put heap O P
    if not allowed then (if throw then fault assertion else ok heap) else (do
      own ← get_own_property O P
      if js_is_data_descriptor own
          then (do r ← define_own_property O P (value_desc V) throw; ok (set heap o r.1))
          else (do
            desc ← get_property heap O P
            if js_is_accessor_descriptor desc
                then fault assertion
                else (do r ← define_own_property O P (new_desc V) throw; ok (set heap o r.1))))
