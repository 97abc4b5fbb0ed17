-- ===== src/Tests/Objects.antt =====
-- libs/js/object.c.
use saki_os.Base.{
  ℕ, ◌≡◌, refl, Bool, true, false, List, [], ◌∷◌, none, some, ok, fault, assertion, arith,
}
use saki_os.DataStruct.Hashmap.Laws as Map
use saki_os.DataStruct.Hashmap.Chain.{find}
use saki_os.DataStruct.Hashmap.{hashmap_new}
use saki_os.Unicode.Hash.{unicode_utf16_cmp, unicode_utf16_hash}
use saki_os.Js.Data.{Data, Property, Object, Heap, deref, js_alloc_property_desc}
use saki_os.Js.Object.Define.{
  define_own_property, put, value_desc, store, define_at, attributes_verdict,
}
use saki_os.Js.Object.Laws.{
  IsValid, own, get_own_property-own, IsFrozen, KeepsFrozen, define_own_property-IsFrozen, Stored,
  store-Stored,
}
use saki_os.Js.Object.Put.{put-IsPermanent, IsOpen, Assigned, put-get}
use saki_os.Js.Object.{js_alloc_object}
use saki_os.Unicode.Hash.Instance.{hashmap_new_utf16, utf16_key}

abbrev plain : Object ℕ
plain = record {
  properties = hashmap_new_utf16 11;
  prototype = none;
  clazz = none;
  extensible = true;
}

plain-js_alloc_object : js_alloc_object ≡ plain
unfolding js_alloc_object
plain-js_alloc_object = refl

plain-IsValid : IsValid plain
unfolding hashmap_new_utf16
plain-IsValid = Map.new-IsValid ⦃k = utf16_key⦄ 11 (omega arith)

abbrev x_key : List ℕ
x_key = b'x' ∷ []

abbrev seven : Data ℕ
seven = Data.number 7

-- a property that may be written where `w` holds, and is never configurable
abbrev fixed : Bool → Property ℕ
fixed w = record {
  value = some seven;
  get = none;
  set = none;
  writable = some w;
  enumerable = some true;
  configurable = some false;
}

holder :
    (w : Bool)
    → (O' : Object ℕ) × (store plain x_key (fixed w) ≡ ok (true, O'))
      × Stored plain x_key (fixed w) O'
holder w = store-Stored plain x_key (fixed w) plain-IsValid

holder-own : (w : Bool) → own (holder w).0 x_key ≡ some (fixed w)
unfolding unicode_utf16_cmp
holder-own w = (holder w).2.reads x_key

frozen_define :
    define_own_property (holder false).0 x_key (value_desc seven) false
    ≡ ok (false, (holder false).0)
unfolding define_own_property define_at attributes_verdict js_alloc_property_desc
frozen_define =
    rw (get_own_property-own (holder false).0 x_key (holder false).2.valid, holder-own false) refl

define_own_property-IsFrozen_example : KeepsFrozen (holder false).0 x_key (fixed false)
define_own_property-IsFrozen_example =
    define_own_property-IsFrozen (holder false).0 x_key (value_desc seven) false (fixed false) false
      (holder false).0 (holder false).2.valid (holder-own false)
      (unfold IsFrozen in (refl, refl, refl)) frozen_define

put-IsPermanent_example : put ((holder true).0 ∷ []) 0 x_key Data.null true ≡ fault assertion
put-IsPermanent_example =
    put-IsPermanent ((holder true).0 ∷ []) 0 (holder true).0 x_key Data.null true (fixed true)
      (unfold deref in refl) (holder true).2.valid (holder-own true)
      (record {
        is_data = refl;
        no_getter = refl;
        writable = refl;
        permanent = refl;
        enumerable = refl;
      })

plain-IsOpen : IsOpen plain x_key
unfolding Map.view find hashmap_new_utf16 hashmap_new unicode_utf16_hash
plain-IsOpen = record { absent = unfold own in refl; alone = refl; extends = refl }

put-get_example :
    (heap' : Heap ℕ) × (O' : Object ℕ) × (put (plain ∷ []) 0 x_key seven true ≡ ok heap')
    × (deref heap' 0 ≡ ok O')
    × Assigned heap' plain x_key seven O'
put-get_example =
    put-get (plain ∷ []) 0 plain x_key seven true (unfold deref in refl) plain-IsValid plain-IsOpen
