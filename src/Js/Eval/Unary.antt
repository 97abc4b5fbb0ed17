-- ===== src/Js/Eval/Unary.antt =====
-- `js_evalUnaryNode` of libs/js/internal.c.
use saki_os.Base.{◌-◌, ◌^◌, not, if◌then◌else◌}
use saki_os.Js.Conversion.{js_to_boolean, js_to_number, js_to_int32}
use saki_os.Js.Data.{Data, CompletionType}
use saki_os.Js.Eval.{Eval, pure, fail, lift, ◌>>=◌, ◌>>◌, js_get_value, value_of, js_put_value}
use saki_os.Js.Float.{Float}
use saki_os.Js.Node.{UnaryNodeType}

module _ {D : Type 0} (float : Float D) where
  -- `x++` and its like: the old and the new value
  unfoldable pub update : (D → D) → Eval D (Data D) → Eval D (D × D)
  unfolding js_get_value js_put_value
  update change operand = do
    expr ← operand
    value ← js_get_value expr
    old_value ← lift (js_to_number float value)
    let new_value = change old_value
    js_put_value expr (Data.number new_value)
    pure (old_value, new_value)

  abbrev pub plus_one : D → D
  plus_one d = float.add d (float.of_int 1)

  abbrev pub minus_one : D → D
  minus_one d = float.sub d (float.of_int 1)

  unfoldable pub js_eval_unary_node : UnaryNodeType → Eval D (Data D) → Eval D (Data D)
  unfolding update value_of
  js_eval_unary_node UnaryNodeType.post_inc_node operand = do
    r ← update plus_one operand
    pure (Data.number r.0)
  js_eval_unary_node UnaryNodeType.post_dec_node operand = do
    r ← update minus_one operand
    pure (Data.number r.0)
  js_eval_unary_node UnaryNodeType.void_node operand = do value_of operand; pure Data.undefined
  js_eval_unary_node UnaryNodeType.pre_inc_node operand = do
    r ← update plus_one operand
    pure (Data.number r.1)
  js_eval_unary_node UnaryNodeType.pre_dec_node operand = do
    r ← update minus_one operand
    pure (Data.number r.1)
  js_eval_unary_node UnaryNodeType.pos_node operand = do
    value ← value_of operand
    d ← lift (js_to_number float value)
    pure (Data.number d)
  js_eval_unary_node UnaryNodeType.neg_node operand = do
    value ← value_of operand
    d ← lift (js_to_number float value)
    pure (Data.number (if float.isnan d then float.nan else float.neg d))
  js_eval_unary_node UnaryNodeType.not_node operand = do
    value ← value_of operand
    word ← lift (js_to_int32 float value)
    pure (Data.number (float.of_int32 (2 ^ 32 - 1 - word)))
  js_eval_unary_node UnaryNodeType.lnot_node operand = do
    value ← value_of operand
    b ← lift (js_to_boolean float value)
    pure (Data.boolean (not b))
  js_eval_unary_node UnaryNodeType.expr_stmt operand = do
    value ← value_of operand
    pure (Data.completion CompletionType.completion_normal value)
  js_eval_unary_node type operand = fail
