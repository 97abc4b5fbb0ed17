-- ===== src/Js/Node.antt =====
-- The syntax trees of include/js/type.h. The parser puts data in a tree where the source has a
-- pointer to it: `nothing` is a NULL that came from a token without a value.
use saki_os.Base.{Bool, List, ℕ}
use saki_os.Js.Token.{Value}

pub data EmptyNodeType : Type 0 where
  this_node : EmptyNodeType

pub data UnaryNodeType : Type 0 where
  post_inc_node post_dec_node delete_node void_node typeof_node pre_inc_node : UnaryNodeType
  pre_dec_node pos_node neg_node not_node lnot_node expr_stmt : UnaryNodeType

pub data BinaryNodeType : Type 0 where
  member_node mul_node mod_node div_node add_node sub_node shl_node shr_node : BinaryNodeType
  ushr_node lt_node gt_node lteq_node gteq_node instanceof_node in_node eq_node : BinaryNodeType
  ineq_node full_eq_node full_ineq_node and_node xor_node or_node l_and_node : BinaryNodeType
  l_or_node assign_node mul_assign_node div_assign_node mod_assign_node : BinaryNodeType
  add_assign_node sub_assign_node shl_assign_node shr_assign_node : BinaryNodeType
  ushr_assign_node and_assign_node xor_assign_node or_assign_node comma_node : BinaryNodeType

pub data TernaryNodeType : Type 0 where
  cond_node : TernaryNodeType

pub data Node (D : Type 0) : Type 0 where
  nothing : Node D
  null : Node D
  boolean : Bool → Node D
  number : D → Node D
  string : List ℕ → Node D
  empty : EmptyNodeType → Node D
  unary : UnaryNodeType → Node D → Node D
  binary : BinaryNodeType → Node D → Node D → Node D
  ternary : TernaryNodeType → Node D → Node D → Node D → Node D

-- `token->value`
abbrev pub from_value : {D : Type 0} → Value D → Node D
from_value Value.null = Node.nothing
from_value (Value.string s) = Node.string s
from_value (Value.number d) = Node.number d
