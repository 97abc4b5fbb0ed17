-- ===== src/Js/Eval/Binary.antt =====
-- `js_evalBinaryNode` of libs/js/internal.c.
use saki_os.Base.{
  ℕ, ◌-◌, ◌^◌, Bool, true, false, not, Option, none, some, if◌then◌else◌, Result, ok, fault,
  invalid, assertion,
}
use saki_os.Base as Base
use saki_os.Js.Conversion.{js_to_boolean, js_to_string, js_check_object_coercible}
use saki_os.Js.Data.{Data}
use saki_os.Js.Eval.Compare.{abs_rel_comp, abs_eq_comp, eq_rounds, strict_eq_comp}
use saki_os.Js.Eval.Operators.{do_binary_op}
use saki_os.Js.Eval.{
  Eval, pure, fail, lift, ◌>>=◌, ◌>>◌, js_alloc_reference, js_get_value, value_of, on_values,
  js_put_value,
}
use saki_os.Js.Float.{Float}
use saki_os.Js.Node.{BinaryNodeType}

-- the operator of an assignment
unfoldable pub op_type : BinaryNodeType → Option BinaryNodeType
op_type BinaryNodeType.mul_assign_node = some BinaryNodeType.mul_node
op_type BinaryNodeType.div_assign_node = some BinaryNodeType.div_node
op_type BinaryNodeType.mod_assign_node = some BinaryNodeType.mod_node
op_type BinaryNodeType.add_assign_node = some BinaryNodeType.add_node
op_type BinaryNodeType.sub_assign_node = some BinaryNodeType.sub_node
op_type BinaryNodeType.shl_assign_node = some BinaryNodeType.shl_node
op_type BinaryNodeType.shr_assign_node = some BinaryNodeType.shr_node
op_type BinaryNodeType.ushr_assign_node = some BinaryNodeType.ushr_node
op_type BinaryNodeType.and_assign_node = some BinaryNodeType.and_node
op_type BinaryNodeType.xor_assign_node = some BinaryNodeType.xor_node
op_type BinaryNodeType.or_assign_node = some BinaryNodeType.or_node
op_type type = none

module _ {D : Type 0} (float : Float D) where
  -- `r == js_constUndefined ? js_constFalse : r`
  abbrev pub rel_holds : Option Bool → Bool
  rel_holds none = false
  rel_holds (some r) = r

  -- `r != js_constFalse ? js_constFalse : js_constTrue`
  abbrev pub rel_fails : Option Bool → Bool
  rel_fails none = false
  rel_fails (some r) = not r

  abbrev pub truth : (Bool → Bool) → Result Bool → Result (Data D)
  truth f r = Base.◌>>=◌ r (λ b. ok (Data.boolean (f b)))

  abbrev pub relation : (Option Bool → Bool) → Result (Option Bool) → Result (Data D)
  relation f r = Base.◌>>=◌ r (λ b. ok (Data.boolean (f b)))

  -- the comparisons of `js_evalBinaryNode`, on values
  unfoldable pub compare : BinaryNodeType → Data D → Data D → Result (Data D)
  unfolding abs_rel_comp eq_rounds strict_eq_comp
  compare BinaryNodeType.lt_node lval rval = relation rel_holds (abs_rel_comp float lval rval true)
  compare BinaryNodeType.gt_node lval rval = relation rel_holds (abs_rel_comp float rval lval false)
  compare BinaryNodeType.lteq_node lval rval =
      relation rel_fails (abs_rel_comp float rval lval false)
  compare BinaryNodeType.gteq_node lval rval =
      relation rel_fails (abs_rel_comp float lval rval true)
  compare BinaryNodeType.eq_node lval rval = truth (λ b. b) (abs_eq_comp float rval lval)
  compare BinaryNodeType.ineq_node lval rval = truth not (abs_eq_comp float rval lval)
  compare BinaryNodeType.full_eq_node lval rval = truth (λ b. b) (strict_eq_comp float rval lval)
  compare BinaryNodeType.full_ineq_node lval rval = truth not (strict_eq_comp float rval lval)
  compare type lval rval = fault assertion

  unfoldable pub assign_op :
      Option BinaryNodeType → Eval D (Data D) → Eval D (Data D) → Eval D (Data D)
  unfolding value_of on_values js_put_value do_binary_op
  assign_op none left right = fail
  assign_op (some type) left right = do
    lref ← left
    lval ← js_get_value lref
    rval ← value_of right
    r ← lift (do_binary_op float type lval rval)
    js_put_value lref r
    pure r

  -- `&&` and `||`: the value of the left operand where `stop` rel_holds of its truth
  unfoldable pub short_cut : (Bool → Bool) → Eval D (Data D) → Eval D (Data D) → Eval D (Data D)
  unfolding value_of on_values
  short_cut stop left right = do
    lval ← value_of left
    b ← lift (js_to_boolean float lval)
    if stop b then pure lval else value_of right

  unfoldable pub eval_member : Eval D (Data D) → Eval D (Data D) → Eval D (Data D)
  unfolding value_of on_values js_to_string
  eval_member left right = do
    base_value ← value_of left
    prop_name_val ← value_of right
    lift (js_check_object_coercible base_value)
    prop_name_str ← lift (js_to_string float prop_name_val)
    pure (js_alloc_reference base_value prop_name_str false)

  unfoldable pub eval_assign : Eval D (Data D) → Eval D (Data D) → Eval D (Data D)
  unfolding value_of on_values js_put_value
  eval_assign left right = do lref ← left; rval ← value_of right; js_put_value lref rval; pure rval

  -- the operators of the first `doBinaryOp`, and the comparisons
  abbrev pub is_operator : BinaryNodeType → Bool
  is_operator BinaryNodeType.mul_node = true
  is_operator BinaryNodeType.div_node = true
  is_operator BinaryNodeType.mod_node = true
  is_operator BinaryNodeType.add_node = true
  is_operator BinaryNodeType.sub_node = true
  is_operator BinaryNodeType.shl_node = true
  is_operator BinaryNodeType.shr_node = true
  is_operator BinaryNodeType.ushr_node = true
  is_operator BinaryNodeType.and_node = true
  is_operator BinaryNodeType.xor_node = true
  is_operator BinaryNodeType.or_node = true
  is_operator type = false

  abbrev pub is_comparison : BinaryNodeType → Bool
  is_comparison BinaryNodeType.lt_node = true
  is_comparison BinaryNodeType.gt_node = true
  is_comparison BinaryNodeType.lteq_node = true
  is_comparison BinaryNodeType.gteq_node = true
  is_comparison BinaryNodeType.eq_node = true
  is_comparison BinaryNodeType.ineq_node = true
  is_comparison BinaryNodeType.full_eq_node = true
  is_comparison BinaryNodeType.full_ineq_node = true
  is_comparison type = false

  -- the cases that are left, with the assignments as the last
  unfoldable pub eval_other : BinaryNodeType → Eval D (Data D) → Eval D (Data D) → Eval D (Data D)
  unfolding eval_member short_cut eval_assign assign_op op_type value_of on_values
  eval_other BinaryNodeType.member_node left right = eval_member left right
  eval_other BinaryNodeType.l_and_node left right = short_cut not left right
  eval_other BinaryNodeType.l_or_node left right = short_cut (λ b. b) left right
  eval_other BinaryNodeType.assign_node left right = eval_assign left right
  eval_other BinaryNodeType.comma_node left right = value_of left >> value_of right
  eval_other type left right = assign_op (op_type type) left right

  unfoldable pub js_eval_binary_node :
      BinaryNodeType → Eval D (Data D) → Eval D (Data D) → Eval D (Data D)
  unfolding eval_other compare do_binary_op value_of on_values
  js_eval_binary_node type left right =
      if is_operator type
      then on_values left right (do_binary_op float type)
      else if is_comparison type
      then on_values left right (compare type)
      else eval_other type left right
