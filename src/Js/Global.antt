-- ===== src/Js/Global.antt =====
-- libs/js/global.c.
pub mod Survives
use saki_os.Base.{Bool, true, false, List, Option, none, some, Result, ok, fault, assertion, ◌>>=◌}
use saki_os.Js.Conversion.Text.{nan_str, inf_str}
use saki_os.Js.Conversion.{undef_str}
use saki_os.Js.Data.{Data, Property, Object, js_alloc_property_desc}
use saki_os.Js.Float.{Float}
use saki_os.Js.Object.Define.{define_own_property}
use saki_os.Js.Object.{js_alloc_object}

module _ {D : Type 0} where
  unfoldable pub create_desc : Data D → Property D
  create_desc val = record js_alloc_property_desc {
    writable = some true;
    enumerable = some false;
    configurable = some true;
    value = some val;
  }

  unfoldable pub create_readonly_desc : Data D → Property D
  unfolding js_alloc_property_desc
  create_readonly_desc val = record js_alloc_property_desc {
    writable = some false;
    enumerable = some false;
    configurable = some false;
    value = some val;
  }

  unfoldable pub js_create_global : Float D → Result (Object D)
  unfolding js_alloc_object create_readonly_desc define_own_property
  js_create_global float = do
    let global = record js_alloc_object {
      extensible = true;
      prototype = none;
      clazz = some undef_str;
    }
    (_, global) ←
        define_own_property global nan_str (create_readonly_desc (Data.number float.nan)) true
    let infinity = float.div (float.of_int 1) (float.of_int 0)
    (_, global) ←
        define_own_property global inf_str (create_readonly_desc (Data.number infinity)) true
    (_, global) ← define_own_property global undef_str (create_readonly_desc Data.undefined) true
    ok global
