-- ===== src/Js/Descriptor.antt =====
-- libs/js/desc.c.
use saki_os.Base.{Bool, true, false, not, ◌&&◌, Option, none, some}
use saki_os.Js.Data.{Property}

-- a pointer that is not NULL
abbrev pub is_set {ℓ} : {A : Type ℓ} → Option A → Bool
is_set none = false
is_set (some a) = true

module _ {D : Type 0} where
  -- `get` is tested twice, and `set` is not.
  abbrev pub js_is_accessor_descriptor : Option (Property D) → Bool
  js_is_accessor_descriptor none = false
  js_is_accessor_descriptor (some desc) = not (not (is_set desc.get) && not (is_set desc.get))

  abbrev pub js_is_data_descriptor : Option (Property D) → Bool
  js_is_data_descriptor none = false
  js_is_data_descriptor (some desc) = not (not (is_set desc.value) && not (is_set desc.writable))

  abbrev pub js_is_generic_descriptor : Option (Property D) → Bool
  js_is_generic_descriptor none = false
  js_is_generic_descriptor (some desc) =
      not (js_is_data_descriptor (some desc)) && not (js_is_accessor_descriptor (some desc))
