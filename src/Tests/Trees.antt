-- ===== src/Tests/Trees.antt =====
-- libs/js/internal.c and libs/js/conversion.c.
use saki_os.Base.{
  ℕ, zero, suc, pos, negsuc, fault, invalid, replicate, ◌++◌, ◌+◌, ◌-◌, ◌*◌, ◌/◌, ◌%◌, ◌^◌, ◌≡◌,
  refl, true, false, List, [], ◌∷◌, Option, none, some, ◌==◌, ltb, leb, if◌then◌else◌, ok,
  ok-injective, subst, ap, sym, ◌∙◌, arith,
}
use saki_os.DataStruct.Hashmap.Laws as Map
use saki_os.DataStruct.Hashmap.{Chain, hashmap_get, hashmap_put, hashmap_new}
use saki_os.Unicode.Hash.{unicode_utf16_hash}
use saki_os.Js.Conversion.Text.{layout}
use saki_os.Js.Conversion.Text.Layout.{plain_text, layout-plain_text}
use saki_os.Js.Data.{Data, Property, Object, Heap, deref}
use saki_os.Js.Eval.Keeps.{HeapIsValid, Evolves}
use saki_os.Base.{◌≢◌, out_of_fuel}
use saki_os.Js.Eval.Compare.Halts.{abs_eq_comp_returns}
use saki_os.Js.Eval.Compare.{abs_eq_comp}
use saki_os.Js.Eval.Keeps.Whole.{js_eval_node-Evolves}
use saki_os.Js.Eval.Nodes.{Context, js_eval_node}
use saki_os.Js.Global.Survives.{
  js_create_global-IsGlobal, HasConstants, js_create_global-HasConstants,
}
use saki_os.Js.Global.{js_create_global}
use saki_os.Js.Conversion.Text.{nan_str}
use saki_os.Js.Conversion.Division.Exact.{div64_by_shifts-div64}
use saki_os.Js.Conversion.Division.{div64_by_shifts}
use saki_os.Js.Conversion.Text.{div64}
use saki_os.Js.Float.{Float}
use saki_os.Js.Node.{Node, EmptyNodeType, BinaryNodeType}
use saki_os.Js.Object.Define.{store, put}
use saki_os.Js.Object.Laws.{IsValid, store-Stored}
use saki_os.Unicode.Hash.Instance.{hashmap_new_utf16, utf16_key}

-- natural numbers
abbrev whole : Float ℕ
whole = record {
  of_int = λ n. n;
  of_int32 = λ n. n;
  of_uint32 = λ n. n;
  nan = 0;
  epsilon = 0;
  add = λ a b. a + b;
  sub = λ a b. a - b;
  mul = λ a b. a * b;
  div = λ a b. a / b;
  fmod = λ a b. a % b;
  neg = λ a. a;
  floor = λ a. a;
  fabs = λ a. a;
  log10 = λ a. if leb 100 a then 2 else if leb 10 a then 1 else 0;
  pow = λ a n. a ^ n;
  isnan = λ a. false;
  isinf = λ a. false;
  less = ltb;
  less_eq = leb;
  equal = λ a b. a == b;
  to_int16 = pos;
  to_int32 = λ a. a % 2 ^ 32;
  to_uint64 = λ a. a % 2 ^ 64;
}

abbrev x_key : List ℕ
x_key = b'x' ∷ []

-- `this.x = 7`
abbrev assignment : Node ℕ
assignment =
    Node.binary BinaryNodeType.assign_node
      (Node.binary BinaryNodeType.member_node (Node.empty EmptyNodeType.this_node)
        (Node.string x_key))
      (Node.number 7)

abbrev frozen : Property ℕ
frozen = record {
  value = some (Data.number 3);
  get = none;
  set = none;
  writable = some false;
  enumerable = some true;
  configurable = some false;
}

abbrev plain : Object ℕ
plain = record {
  properties = hashmap_new_utf16 11;
  prototype = none;
  clazz = none;
  extensible = true;
}

plain-IsValid : IsValid plain
unfolding hashmap_new_utf16
plain-IsValid = Map.new-IsValid ⦃k = utf16_key⦄ 11 (omega arith)

abbrev table : List (Chain (List ℕ) (Option (Property ℕ)))
table = replicate 10 [] ++ (record { hash = b'x'; key = x_key; item = some frozen } ∷ []) ∷ []

abbrev holder : Object ℕ
holder = record plain { properties = record { size = 11; node = table } }

holder_stored : store plain x_key frozen ≡ ok (true, holder)
unfolding hashmap_put hashmap_new_utf16 hashmap_new unicode_utf16_hash
holder_stored = refl

holder-IsValid : IsValid holder
holder-IsValid =
    let (O', runs, stored) = store-Stored plain x_key frozen plain-IsValid in
    subst IsValid (ap (λ r. r.1) (ok-injective (sym runs ∙ holder_stored))) stored.valid

abbrev heap : Heap ℕ
heap = holder ∷ []

heap-HeapIsValid : HeapIsValid heap
unfolding HeapIsValid deref
heap-HeapIsValid zero O e = subst IsValid (ok-injective e) holder-IsValid
heap-HeapIsValid (suc o) O e = absurd (cc)

abbrev context : Context
context = record { this_binding = 0 }

assignment_runs : js_eval_node whole context assignment heap ≡ ok (Data.number 7, heap)
unfolding js_eval_node put deref hashmap_get unicode_utf16_hash
assignment_runs = refl

js_eval_node-Evolves_example : Evolves heap heap
js_eval_node-Evolves_example =
    js_eval_node-Evolves whole context assignment heap (Data.number 7) heap heap-HeapIsValid
      assignment_runs

-- -1203 and 12.03
layout-plain_text_example : layout 1 1203 (pos 4) 4 ≡ ok (plain_text true 1203 4 4)
layout-plain_text_example = layout-plain_text true 1203 4 4 (omega arith) (omega arith)

layout_point : layout 0 1203 (pos 2) 4 ≡ ok (b'1' ∷ b'2' ∷ b'.' ∷ b'0' ∷ b'3' ∷ [])
unfolding layout
layout_point = refl

-- 0.05
layout_fraction : layout 0 5 (negsuc 0) 1 ≡ ok (b'0' ∷ b'5' ∷ [])
unfolding layout
layout_fraction = refl

-- 0.0005
layout_small : layout 0 5 (negsuc 2) 1 ≡ fault invalid
unfolding layout
layout_small = refl

abbrev global : Object ℕ
global = elim (js_create_global whole) [ ok O ↦ O | fault f ↦ plain ]

global_returned : js_create_global whole ≡ ok global
unfolding js_create_global hashmap_get hashmap_new_utf16 hashmap_new unicode_utf16_hash hashmap_put
global_returned = refl

global-IsValid : IsValid global
global-IsValid =
    let (O, runs, g) = js_create_global-IsGlobal whole in
    subst IsValid (ok-injective (sym runs ∙ global_returned)) g.valid

global-HeapIsValid : HeapIsValid (global ∷ [])
unfolding HeapIsValid deref
global-HeapIsValid zero O e = subst IsValid (ok-injective e) global-IsValid
global-HeapIsValid (suc o) O e = absurd (cc)

-- `this.NaN = 7`
abbrev overwriting : Node ℕ
overwriting =
    Node.binary BinaryNodeType.assign_node
      (Node.binary BinaryNodeType.member_node (Node.empty EmptyNodeType.this_node)
        (Node.string nan_str))
      (Node.number 7)

overwriting_runs :
    js_eval_node whole context overwriting (global ∷ []) ≡ ok (Data.number 7, global ∷ [])
unfolding js_create_global js_eval_node put deref hashmap_get unicode_utf16_hash hashmap_new_utf16
    hashmap_new hashmap_put
overwriting_runs = refl

js_create_global-HasConstants_example :
    (O' : Object ℕ) × (deref (global ∷ []) 0 ≡ ok O') × HasConstants whole (global ∷ []) O'
js_create_global-HasConstants_example =
    js_create_global-HasConstants whole context overwriting (global ∷ []) (global ∷ []) 0
      (Data.number 7) global global_returned global-HeapIsValid (unfold deref in refl)
      overwriting_runs

div64_by_shifts-div64_example :
    div64_by_shifts 1234567890123456789 10 ≡ ok (div64 1234567890123456789 10)
div64_by_shifts-div64_example =
    div64_by_shifts-div64 1234567890123456789 10 (omega arith) (omega arith) (omega arith)

-- true and a string
abs_eq_comp_returns_example :
    abs_eq_comp whole (Data.boolean true) (Data.string x_key) ≢ fault out_of_fuel
abs_eq_comp_returns_example = abs_eq_comp_returns whole (Data.boolean true) (Data.string x_key)
