-- ===== src/Js/Eval/Keeps/Whole.antt =====
-- libs/js/internal.c: what the evaluation of a tree leaves of the heap.
use saki_os.Base.{◌≡◌, Bool, not, Option, none, some, Result, ok, assertion, invalid}
use saki_os.Js.Conversion.{
  js_to_boolean, js_to_number, js_to_int32, js_to_string, js_check_object_coercible,
}
use saki_os.Js.Data.{Data, Heap}
use saki_os.Js.Eval.Binary.{
  op_type, assign_op, short_cut, eval_member, eval_assign, eval_other, is_operator, is_comparison,
  js_eval_binary_node,
}
use saki_os.Js.Eval.Keeps.{HeapIsValid, Evolves, Keeps}
use saki_os.Js.Eval.Keeps.Run.{
  Keeps-fault, Keeps-lift, Keeps-pure, Keeps-bind, Keeps-if, js_get_value-Keeps, js_put_value-Keeps,
  value_of-Keeps,
}
use saki_os.Js.Eval.Nodes.{Context, js_eval_empty_node, js_eval_ternary_node, js_eval_node}
use saki_os.Js.Eval.Operators.{do_binary_op}
use saki_os.Js.Eval.Unary.{update, plus_one, minus_one, js_eval_unary_node}
use saki_os.Js.Eval.{Eval, pure, lift, ◌>>=◌, ◌>>◌, js_get_value, js_put_value, value_of, on_values}
use saki_os.Js.Float.{Float}
use saki_os.Js.Node.{Node, EmptyNodeType, UnaryNodeType, BinaryNodeType, TernaryNodeType}

module _ {D : Type 0} (float : Float D) where
  -- a value of an operand, and then what leaves the heap alone
  value_then-Keeps :
      {A : Type 0} (operand : Eval D (Data D)) (f : Data D → Eval D A)
      → Keeps operand
      → ((v : Data D) → Keeps (f v))
      → Keeps (value_of operand >>= f)
  value_then-Keeps operand f k l = Keeps-bind (value_of operand) f (value_of-Keeps operand k) l

  lift_then-Keeps :
      {A B : Type 0} (r : Result A) (f : A → Eval D B)
      → ((a : A) → Keeps (f a))
      → Keeps (lift r >>= f)
  lift_then-Keeps r f l = Keeps-bind (lift r) f (Keeps-lift D r) l

  put_then-Keeps : (value W : Data D) {B : Type 0} (b : B) → Keeps (js_put_value value W >> pure b)
  put_then-Keeps value W b =
      Keeps-bind (js_put_value value W) _ (js_put_value-Keeps value W) λ _. Keeps-pure D b

  on_values-Keeps :
      (left right : Eval D (Data D)) (f : Data D → Data D → Result (Data D))
      → Keeps left
      → Keeps right
      → Keeps (on_values left right f)
  unfolding on_values
  on_values-Keeps left right f k l =
      value_then-Keeps left _ k λ a. value_then-Keeps right _ l λ b. Keeps-lift D (f a b)

  update-Keeps :
      (change : D → D) (operand : Eval D (Data D))
      → Keeps operand
      → Keeps (update float change operand)
  unfolding update
  update-Keeps change operand k = Keeps-bind operand _ k λ expr.
      Keeps-bind (js_get_value expr) _ (js_get_value-Keeps expr)
        λ value. lift_then-Keeps (js_to_number float value) _ λ old. put_then-Keeps expr _ _

  js_eval_unary_node-Keeps :
      (type : UnaryNodeType) (operand : Eval D (Data D))
      → Keeps operand
      → Keeps (js_eval_unary_node float type operand)
  unfolding js_eval_unary_node
  js_eval_unary_node-Keeps UnaryNodeType.post_inc_node operand k =
      Keeps-bind (update float (plus_one float) operand) _ (update-Keeps _ operand k)
        λ r. Keeps-pure D _
  js_eval_unary_node-Keeps UnaryNodeType.post_dec_node operand k =
      Keeps-bind (update float (minus_one float) operand) _ (update-Keeps _ operand k)
        λ r. Keeps-pure D _
  js_eval_unary_node-Keeps UnaryNodeType.pre_inc_node operand k =
      Keeps-bind (update float (plus_one float) operand) _ (update-Keeps _ operand k)
        λ r. Keeps-pure D _
  js_eval_unary_node-Keeps UnaryNodeType.pre_dec_node operand k =
      Keeps-bind (update float (minus_one float) operand) _ (update-Keeps _ operand k)
        λ r. Keeps-pure D _
  js_eval_unary_node-Keeps UnaryNodeType.void_node operand k =
      value_then-Keeps operand _ k λ v. Keeps-pure D _
  js_eval_unary_node-Keeps UnaryNodeType.pos_node operand k =
      value_then-Keeps operand _ k λ v. lift_then-Keeps (js_to_number float v) _ λ d. Keeps-pure D _
  js_eval_unary_node-Keeps UnaryNodeType.neg_node operand k =
      value_then-Keeps operand _ k λ v. lift_then-Keeps (js_to_number float v) _ λ d. Keeps-pure D _
  js_eval_unary_node-Keeps UnaryNodeType.not_node operand k =
      value_then-Keeps operand _ k λ v. lift_then-Keeps (js_to_int32 float v) _ λ d. Keeps-pure D _
  js_eval_unary_node-Keeps UnaryNodeType.lnot_node operand k =
      value_then-Keeps operand _ k
        λ v. lift_then-Keeps (js_to_boolean float v) _ λ b. Keeps-pure D _
  js_eval_unary_node-Keeps UnaryNodeType.expr_stmt operand k =
      value_then-Keeps operand _ k λ v. Keeps-pure D _
  js_eval_unary_node-Keeps UnaryNodeType.delete_node operand k = Keeps-fault D _ assertion
  js_eval_unary_node-Keeps UnaryNodeType.typeof_node operand k = Keeps-fault D _ assertion

  assign_op-Keeps :
      (type : Option BinaryNodeType) (left right : Eval D (Data D))
      → Keeps left
      → Keeps right
      → Keeps (assign_op float type left right)
  unfolding assign_op
  assign_op-Keeps none left right k l = Keeps-fault D _ assertion
  assign_op-Keeps (some type) left right k l = Keeps-bind left _ k λ lref.
      Keeps-bind (js_get_value lref) _ (js_get_value-Keeps lref) λ lval.
        value_then-Keeps right _ l
          λ rval. lift_then-Keeps (do_binary_op float type lval rval) _ λ r. put_then-Keeps lref r r

  short_cut-Keeps :
      (stop : Bool → Bool) (left right : Eval D (Data D))
      → Keeps left
      → Keeps right
      → Keeps (short_cut float stop left right)
  unfolding short_cut
  short_cut-Keeps stop left right k l = value_then-Keeps left _ k λ lval.
      lift_then-Keeps (js_to_boolean float lval) _
        λ b. Keeps-if (stop b) _ _ (Keeps-pure D lval) (value_of-Keeps right l)

  eval_member-Keeps :
      (left right : Eval D (Data D))
      → Keeps left
      → Keeps right
      → Keeps (eval_member float left right)
  unfolding eval_member
  eval_member-Keeps left right k l = value_then-Keeps left _ k λ base.
      value_then-Keeps right _ l λ name.
        lift_then-Keeps (js_check_object_coercible base) _
          λ _. lift_then-Keeps (js_to_string float name) _ λ s. Keeps-pure D _

  eval_assign-Keeps :
      (left right : Eval D (Data D))
      → Keeps left
      → Keeps right
      → Keeps (eval_assign float left right)
  unfolding eval_assign
  eval_assign-Keeps left right k l =
      Keeps-bind left _ k λ lref. value_then-Keeps right _ l λ rval. put_then-Keeps lref rval rval

  eval_other-Keeps :
      (type : BinaryNodeType) (left right : Eval D (Data D))
      → Keeps left
      → Keeps right
      → Keeps (eval_other float type left right)
  unfolding eval_other
  eval_other-Keeps BinaryNodeType.member_node left right k l = eval_member-Keeps left right k l
  eval_other-Keeps BinaryNodeType.l_and_node left right k l = short_cut-Keeps not left right k l
  eval_other-Keeps BinaryNodeType.l_or_node left right k l = short_cut-Keeps (λ b. b) left right k l
  eval_other-Keeps BinaryNodeType.assign_node left right k l = eval_assign-Keeps left right k l
  eval_other-Keeps BinaryNodeType.comma_node left right k l =
      value_then-Keeps left _ k λ _. value_of-Keeps right l
  eval_other-Keeps type left right k l = assign_op-Keeps (op_type type) left right k l

  js_eval_binary_node-Keeps :
      (type : BinaryNodeType) (left right : Eval D (Data D))
      → Keeps left
      → Keeps right
      → Keeps (js_eval_binary_node float type left right)
  unfolding js_eval_binary_node
  js_eval_binary_node-Keeps type left right k l =
      Keeps-if (is_operator float type) _ _ (on_values-Keeps left right _ k l) (
        Keeps-if (is_comparison float type) _ _ (on_values-Keeps left right _ k l)
          (eval_other-Keeps type left right k l))

  js_eval_ternary_node-Keeps :
      (type : TernaryNodeType) (test first second : Eval D (Data D))
      → Keeps test
      → Keeps first
      → Keeps second
      → Keeps (js_eval_ternary_node float type test first second)
  unfolding js_eval_ternary_node
  js_eval_ternary_node-Keeps TernaryNodeType.cond_node test first second k l m =
      value_then-Keeps test _ k λ value.
        lift_then-Keeps (js_to_boolean float value) _
          λ b. Keeps-if b _ _ (value_of-Keeps first l) (value_of-Keeps second m)

  tree-Keeps : (context : Context) (n : Node D) → Keeps (js_eval_node float context n)
  unfolding js_eval_node js_eval_empty_node
  tree-Keeps context Node.nothing = Keeps-fault D _ invalid
  tree-Keeps context Node.null = Keeps-pure D _
  tree-Keeps context (Node.boolean b) = Keeps-pure D _
  tree-Keeps context (Node.number d) = Keeps-pure D _
  tree-Keeps context (Node.string s) = Keeps-pure D _
  tree-Keeps context (Node.empty EmptyNodeType.this_node) = Keeps-pure D _
  tree-Keeps context (Node.unary type a) = js_eval_unary_node-Keeps type _ (tree-Keeps context a)
  tree-Keeps context (Node.binary type a b) =
      js_eval_binary_node-Keeps type _ _ (tree-Keeps context a) (tree-Keeps context b)
  tree-Keeps context (Node.ternary type a b c) =
      js_eval_ternary_node-Keeps type _ _ _ (tree-Keeps context a) (tree-Keeps context b)
        (tree-Keeps context c)

  -- When the evaluation of a tree returns, on a heap of valid objects, the heap has valid objects and
  -- every frozen property of an object, one that is neither configurable nor writable, is there as it
  -- was: in the same object, frozen, and with its value.
  pub js_eval_node-Evolves :
      (context : Context) (n : Node D) (heap : Heap D) (v : Data D) (heap' : Heap D)
      → HeapIsValid heap
      → js_eval_node float context n heap ≡ ok (v, heap')
      → Evolves heap heap'
  unfolding Keeps
  js_eval_node-Evolves context n heap v heap' valid e = tree-Keeps context n heap valid v heap' e
