-- ===== src/Js/Eval/Nodes.antt =====
-- `js_evalNode` of libs/js/internal.c, with the empty and the ternary nodes. A function gets the evaluations of the subtrees in
-- place of the subtrees.
use saki_os.Base.{ℕ, if◌then◌else◌, fault, invalid}
use saki_os.Js.Conversion.{js_to_boolean}
use saki_os.Js.Data.{Data}
use saki_os.Js.Eval.Unary.{js_eval_unary_node}
use saki_os.Js.Eval.Binary.{js_eval_binary_node}
use saki_os.Js.Eval.{Eval, pure, lift, ◌>>=◌, value_of}
use saki_os.Js.Float.{Float}
use saki_os.Js.Node.{Node, EmptyNodeType, TernaryNodeType}

-- `js_context_t`
pub record Context : Type 0 where
  pub this_binding : ℕ

module _ {D : Type 0} (float : Float D) where
  unfoldable pub js_eval_empty_node : Context → EmptyNodeType → Eval D (Data D)
  js_eval_empty_node context EmptyNodeType.this_node = pure (Data.object context.this_binding)

  unfoldable pub js_eval_ternary_node :
      TernaryNodeType → Eval D (Data D) → Eval D (Data D) → Eval D (Data D) → Eval D (Data D)
  unfolding value_of
  js_eval_ternary_node TernaryNodeType.cond_node test first second = do
    value ← value_of test
    b ← lift (js_to_boolean float value)
    if b then value_of first else value_of second

  -- A tree of `nothing` is the pointer NULL.
  unfoldable pub js_eval_node : Context → Node D → Eval D (Data D)
  unfolding js_eval_empty_node js_eval_unary_node js_eval_binary_node js_eval_ternary_node
  js_eval_node context Node.nothing = λ heap. fault invalid
  js_eval_node context Node.null = pure Data.null
  js_eval_node context (Node.boolean b) = pure (Data.boolean b)
  js_eval_node context (Node.number d) = pure (Data.number d)
  js_eval_node context (Node.string s) = pure (Data.string s)
  js_eval_node context (Node.empty type) = js_eval_empty_node context type
  js_eval_node context (Node.unary type a) = js_eval_unary_node float type (js_eval_node context a)
  js_eval_node context (Node.binary type a b) =
      js_eval_binary_node float type (js_eval_node context a) (js_eval_node context b)
  js_eval_node context (Node.ternary type a b c) =
      js_eval_ternary_node type (js_eval_node context a) (js_eval_node context b)
        (js_eval_node context c)
