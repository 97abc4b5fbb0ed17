-- ===== src/Js/Grammar/Derives.antt =====
-- The grammar that libs/js/grammar.c implements, as a relation between tokens and trees: the part of
-- ECMA-262's expressions that the comments of the source give, without identifiers, calls, `new`,
-- functions and the literals of arrays, objects and regular expressions.
use saki_os.Base.{
  ℕ, Bool, true, false, ◌||◌, List, [], ◌∷◌, ◌++◌, Option, none, some, ◌==◌, if◌then◌else◌, ◌≡◌,
}
use saki_os.Js.Grammar.Expr.{Level}
use saki_os.Js.Node.{
  Node, EmptyNodeType, UnaryNodeType, BinaryNodeType, TernaryNodeType, from_value,
}
use saki_os.Js.Token.{Token}
use saki_os.Js.TokenType

-- the binary operators of a level with their nodes
unfoldable pub operators : Bool → Level → List (ℕ × BinaryNodeType)
operators no_in Level.mul =
    (b'*', BinaryNodeType.mul_node)
    ∷ (b'%', BinaryNodeType.mod_node)
    ∷ (b'/', BinaryNodeType.div_node)
    ∷ []
operators no_in Level.add = (b'+', BinaryNodeType.add_node) ∷ (b'-', BinaryNodeType.sub_node) ∷ []
operators no_in Level.shift =
    (TokenType.shl, BinaryNodeType.shl_node)
    ∷ (TokenType.shr, BinaryNodeType.shr_node)
    ∷ (TokenType.ushr, BinaryNodeType.ushr_node)
    ∷ []
operators no_in Level.rel =
    (b'<', BinaryNodeType.lt_node)
    ∷ (b'>', BinaryNodeType.gt_node)
    ∷ (TokenType.lteq, BinaryNodeType.lteq_node)
    ∷ (TokenType.gteq, BinaryNodeType.gteq_node)
    ∷ (TokenType.instanceof, BinaryNodeType.instanceof_node)
    ∷ (if no_in then [] else (TokenType.in_operator, BinaryNodeType.in_node) ∷ [])
operators no_in Level.eq =
    (TokenType.eq, BinaryNodeType.eq_node)
    ∷ (TokenType.ineq, BinaryNodeType.ineq_node)
    ∷ (TokenType.full_eq, BinaryNodeType.full_eq_node)
    ∷ (TokenType.full_ineq, BinaryNodeType.full_ineq_node)
    ∷ []
operators no_in Level.and = (b'&', BinaryNodeType.and_node) ∷ []
operators no_in Level.xor = (b'^', BinaryNodeType.xor_node) ∷ []
operators no_in Level.or = (b'|', BinaryNodeType.or_node) ∷ []
operators no_in Level.l_and = (TokenType.l_and, BinaryNodeType.l_and_node) ∷ []
operators no_in Level.l_or = (TokenType.l_or, BinaryNodeType.l_or_node) ∷ []
operators no_in Level.expr = (b',', BinaryNodeType.comma_node) ∷ []
operators no_in level = []

unfoldable pub unary_operators : List (ℕ × UnaryNodeType)
unary_operators =
    (TokenType.delete, UnaryNodeType.delete_node)
    ∷ (TokenType.void, UnaryNodeType.void_node)
    ∷ (TokenType.typeof, UnaryNodeType.typeof_node)
    ∷ (TokenType.inc, UnaryNodeType.pre_inc_node)
    ∷ (TokenType.dec, UnaryNodeType.pre_dec_node)
    ∷ (b'+', UnaryNodeType.pos_node)
    ∷ (b'-', UnaryNodeType.neg_node)
    ∷ (b'~', UnaryNodeType.not_node)
    ∷ (b'!', UnaryNodeType.lnot_node)
    ∷ []

unfoldable pub assignments : List (ℕ × BinaryNodeType)
assignments =
    (b'=', BinaryNodeType.assign_node)
    ∷ (TokenType.mul_assign, BinaryNodeType.mul_assign_node)
    ∷ (TokenType.div_assign, BinaryNodeType.div_assign_node)
    ∷ (TokenType.mod_assign, BinaryNodeType.mod_assign_node)
    ∷ (TokenType.add_assign, BinaryNodeType.add_assign_node)
    ∷ (TokenType.sub_assign, BinaryNodeType.sub_assign_node)
    ∷ (TokenType.shl_assign, BinaryNodeType.shl_assign_node)
    ∷ (TokenType.shr_assign, BinaryNodeType.shr_assign_node)
    ∷ (TokenType.ushr_assign, BinaryNodeType.ushr_assign_node)
    ∷ (TokenType.and_assign, BinaryNodeType.and_assign_node)
    ∷ (TokenType.xor_assign, BinaryNodeType.xor_assign_node)
    ∷ (TokenType.or_assign, BinaryNodeType.or_assign_node)
    ∷ []

-- the first entry for a type of token
unfoldable pub entry_of {ℓ} : {A : Type ℓ} → List (ℕ × A) → ℕ → Option A
entry_of [] t = none
entry_of ((k, a) ∷ rest) t = if t == k then some a else entry_of rest t

-- The order of the levels: the operands of the second are expressions of the first.
pub data Tighter : Level → Level → Type 0 where
  under_left_hand_side : Tighter Level.member Level.left_hand_side
  under_postfix : Tighter Level.left_hand_side Level.postfix
  under_unary : Tighter Level.postfix Level.unary
  under_mul : Tighter Level.unary Level.mul
  under_add : Tighter Level.mul Level.add
  under_shift : Tighter Level.add Level.shift
  under_rel : Tighter Level.shift Level.rel
  under_eq : Tighter Level.rel Level.eq
  under_and : Tighter Level.eq Level.and
  under_xor : Tighter Level.and Level.xor
  under_or : Tighter Level.xor Level.or
  under_l_and : Tighter Level.or Level.l_and
  under_l_or : Tighter Level.l_and Level.l_or
  under_cond : Tighter Level.l_or Level.cond
  under_assign : Tighter Level.cond Level.assign
  under_expr : Tighter Level.assign Level.expr

module _ {D : Type 0} where
  -- the tree of a token that is an expression on its own
  unfoldable pub literal_node : Token D → Option (Node D)
  literal_node t =
      if t.type == TokenType.this
      then some (Node.empty EmptyNodeType.this_node)
      else if t.type == TokenType.null_lit
      then some Node.null
      else if t.type == TokenType.true_lit
      then some (Node.boolean true)
      else if t.type == TokenType.false_lit
      then some (Node.boolean false)
      else if t.type == TokenType.num || t.type == TokenType.str
      then some (from_value t.value)
      else none

  -- `in` is no operator where `no_in` holds. Binary operators associate to the left, assignment and
  -- the conditional operator to the right, and no line ends before a postfix operator.
  pub data Derives (no_in : Bool) : Level → List (Token D) → Node D → Type 0 where
    literal :
        {t : Token D} {n : Node D} → literal_node t ≡ some n → Derives no_in Level.member (t ∷ []) n
    parentheses :
        (t u : Token D) {ts : List (Token D)} {n : Node D}
        → t.type ≡ b'('
        → Derives no_in Level.expr ts n
        → u.type ≡ b')'
        → Derives no_in Level.member (t ∷ (ts ++ u ∷ [])) n
    dot :
        (t u : Token D) {ts : List (Token D)} {n : Node D}
        → Derives no_in Level.member ts n
        → t.type ≡ b'.'
        → u.type ≡ TokenType.id
        → Derives no_in Level.member
            (ts ++ t ∷ u ∷ [])
            (Node.binary BinaryNodeType.member_node n (from_value u.value))
    index :
        (t u : Token D) {ts us : List (Token D)} {n m : Node D}
        → Derives no_in Level.member ts n
        → t.type ≡ b'['
        → Derives no_in Level.expr us m
        → u.type ≡ b']'
        → Derives no_in Level.member
            (ts ++ t ∷ (us ++ u ∷ []))
            (Node.binary BinaryNodeType.member_node n m)
    lift :
        {inner level : Level} {ts : List (Token D)} {n : Node D}
        → Tighter inner level
        → Derives no_in inner ts n
        → Derives no_in level ts n
    post_increment :
        (t : Token D) {ts : List (Token D)} {n : Node D}
        → Derives no_in Level.left_hand_side ts n
        → t.line_before ≡ false
        → t.type ≡ TokenType.inc
        → Derives no_in Level.postfix (ts ++ t ∷ []) (Node.unary UnaryNodeType.post_inc_node n)
    post_decrement :
        (t : Token D) {ts : List (Token D)} {n : Node D}
        → Derives no_in Level.left_hand_side ts n
        → t.line_before ≡ false
        → t.type ≡ TokenType.dec
        → Derives no_in Level.postfix (ts ++ t ∷ []) (Node.unary UnaryNodeType.post_dec_node n)
    prefix :
        (t : Token D) {ts : List (Token D)} {n : Node D} {type : UnaryNodeType}
        → entry_of unary_operators t.type ≡ some type
        → Derives no_in Level.unary ts n
        → Derives no_in Level.unary (t ∷ ts) (Node.unary type n)
    operator :
        {inner level : Level} (t : Token D) {ts us : List (Token D)} {n m : Node D}
        {type : BinaryNodeType}
        → Derives no_in level ts n
        → entry_of (operators no_in level) t.type ≡ some type
        → Tighter inner level
        → Derives no_in inner us m
        → Derives no_in level (ts ++ t ∷ us) (Node.binary type n m)
    conditional :
        (t u : Token D) {ts us vs : List (Token D)} {n m k : Node D}
        → Derives no_in Level.l_or ts n
        → t.type ≡ b'?'
        → Derives no_in Level.assign us m
        → u.type ≡ b':'
        → Derives no_in Level.assign vs k
        → Derives no_in Level.cond
            (ts ++ t ∷ (us ++ u ∷ vs))
            (Node.ternary TernaryNodeType.cond_node n m k)
    assignment :
        (t : Token D) {ts us : List (Token D)} {n m : Node D} {type : BinaryNodeType}
        → Derives no_in Level.cond ts n
        → entry_of assignments t.type ≡ some type
        → Derives no_in Level.assign us m
        → Derives no_in Level.assign (ts ++ t ∷ us) (Node.binary type n m)
