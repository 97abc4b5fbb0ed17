-- ===== src/Js/Grammar/Expr.antt =====
-- The expressions of libs/js/grammar.c. Each function that calls itself or another of them takes the
-- calls as `self`; the loops are calls of their own. `parse` ties the knot, on fuel.
use saki_os.Base.{
  ℕ, zero, suc, Bool, true, false, ◌||◌, Option, none, some, ◌==◌, if◌then◌else◌, fault,
  out_of_fuel,
}
use saki_os.Js.Grammar.{
  Source, Parser, pure, fail, ◌>>=◌, ◌>>◌, next, lookahead, expect, set_regexp, set_parse_id,
  expect_semicolon,
}
use saki_os.Js.Node.{
  Node, EmptyNodeType, UnaryNodeType, BinaryNodeType, TernaryNodeType, from_value,
}
use saki_os.Js.TokenType

-- the functions of the expressions, the tightest first
pub data Level : Type 0 where
  member left_hand_side postfix unary mul add shift rel eq and xor or : Level
  l_and l_or cond assign expr : Level

-- a call of such a function, or of the loop in it with `cur`
pub data Call (D : Type 0) : Type 0 where
  start : Level → Call D
  member_loop : Node D → Call D
  left_hand_side_loop : Node D → Call D
  binary_loop : Level → Node D → Call D

-- `_previous` of the macros `BINARY_1` to `BINARY_3`
abbrev pub previous : Level → Level
previous Level.member = Level.member
previous Level.left_hand_side = Level.member
previous Level.postfix = Level.left_hand_side
previous Level.unary = Level.postfix
previous Level.mul = Level.unary
previous Level.add = Level.mul
previous Level.shift = Level.add
previous Level.rel = Level.shift
previous Level.eq = Level.rel
previous Level.and = Level.eq
previous Level.xor = Level.and
previous Level.or = Level.xor
previous Level.l_and = Level.or
previous Level.l_or = Level.l_and
previous Level.cond = Level.l_or
previous Level.assign = Level.cond
previous Level.expr = Level.assign

-- the cases of the macros: the operators of a level with their nodes
unfoldable pub binary_type : Bool → Level → ℕ → Option BinaryNodeType
binary_type no_in Level.mul t =
    if t == b'*'
    then some BinaryNodeType.mul_node
    else if t == b'%'
    then some BinaryNodeType.mod_node
    else if t == b'/'
    then some BinaryNodeType.div_node
    else none
binary_type no_in Level.add t =
    if t == b'+'
    then some BinaryNodeType.add_node
    else if t == b'-'
    then some BinaryNodeType.sub_node
    else none
binary_type no_in Level.shift t =
    if t == TokenType.shl
    then some BinaryNodeType.shl_node
    else if t == TokenType.shr
    then some BinaryNodeType.shr_node
    else if t == TokenType.ushr
    then some BinaryNodeType.ushr_node
    else none
binary_type no_in Level.rel t =
    if t == b'<'
    then some BinaryNodeType.lt_node
    else if t == b'>'
    then some BinaryNodeType.gt_node
    else if t == TokenType.lteq
    then some BinaryNodeType.lteq_node
    else if t == TokenType.gteq
    then some BinaryNodeType.gteq_node
    else if t == TokenType.instanceof
    then some BinaryNodeType.instanceof_node
    else if t == TokenType.in_operator
    then (if no_in then none else some BinaryNodeType.in_node)
    else none
binary_type no_in Level.eq t =
    if t == TokenType.eq
    then some BinaryNodeType.eq_node
    else if t == TokenType.ineq
    then some BinaryNodeType.ineq_node
    else if t == TokenType.full_eq
    then some BinaryNodeType.full_eq_node
    else if t == TokenType.full_ineq
    then some BinaryNodeType.full_ineq_node
    else none
binary_type no_in Level.and t = if t == b'&' then some BinaryNodeType.and_node else none
binary_type no_in Level.xor t = if t == b'^' then some BinaryNodeType.xor_node else none
binary_type no_in Level.or t = if t == b'|' then some BinaryNodeType.or_node else none
binary_type no_in Level.l_and t =
    if t == TokenType.l_and then some BinaryNodeType.l_and_node else none
binary_type no_in Level.l_or t = if t == TokenType.l_or then some BinaryNodeType.l_or_node else none
binary_type no_in Level.expr t = if t == b',' then some BinaryNodeType.comma_node else none
binary_type no_in l t = none

-- the cases of `grammar_unaryExpr`
unfoldable pub unary_type : ℕ → Option UnaryNodeType
unary_type t =
    if t == TokenType.delete
    then some UnaryNodeType.delete_node
    else if t == TokenType.void
    then some UnaryNodeType.void_node
    else if t == TokenType.typeof
    then some UnaryNodeType.typeof_node
    else if t == TokenType.inc
    then some UnaryNodeType.pre_inc_node
    else if t == TokenType.dec
    then some UnaryNodeType.pre_dec_node
    else if t == b'+'
    then some UnaryNodeType.pos_node
    else if t == b'-'
    then some UnaryNodeType.neg_node
    else if t == b'~'
    then some UnaryNodeType.not_node
    else if t == b'!'
    then some UnaryNodeType.lnot_node
    else none

-- the cases of `grammar_assignExpr`; `op=` is the operator's character with `assign_flag`
unfoldable pub assign_type : ℕ → Option BinaryNodeType
assign_type t =
    if t == b'='
    then some BinaryNodeType.assign_node
    else if t == TokenType.mul_assign
    then some BinaryNodeType.mul_assign_node
    else if t == TokenType.div_assign
    then some BinaryNodeType.div_assign_node
    else if t == TokenType.mod_assign
    then some BinaryNodeType.mod_assign_node
    else if t == TokenType.add_assign
    then some BinaryNodeType.add_assign_node
    else if t == TokenType.sub_assign
    then some BinaryNodeType.sub_assign_node
    else if t == TokenType.shl_assign
    then some BinaryNodeType.shl_assign_node
    else if t == TokenType.shr_assign
    then some BinaryNodeType.shr_assign_node
    else if t == TokenType.ushr_assign
    then some BinaryNodeType.ushr_assign_node
    else if t == TokenType.and_assign
    then some BinaryNodeType.and_assign_node
    else if t == TokenType.xor_assign
    then some BinaryNodeType.xor_assign_node
    else if t == TokenType.or_assign
    then some BinaryNodeType.or_assign_node
    else none

module _ {L D : Type 0} (source : Source L D) (self : Call D → Parser L D (Node D)) where
  unfoldable pub grammar_primary_expr : Parser L D (Node D)
  grammar_primary_expr = do
    set_regexp source true
    ahead ← lookahead source
    let t = ahead.type
    if t == TokenType.this
        then (do next source; pure (Node.empty EmptyNodeType.this_node))
        else if t == TokenType.null_lit
        then (do next source; pure Node.null)
        else if t == TokenType.true_lit
        then (do next source; pure (Node.boolean true))
        else if t == TokenType.false_lit
        then (do next source; pure (Node.boolean false))
        else if t == TokenType.num || t == TokenType.str
        then (do token ← next source; pure (from_value token.value))
        else if t == b'('
        then (do next source; ret ← self (start Level.expr); expect source b')'; pure ret)
        else fail

  -- one round of the loop of `grammar_memberExpr` and `grammar_leftHandSideExpr`; `again` goes on
  unfoldable pub member_round : (Node D → Call D) → Node D → Parser L D (Node D)
  member_round again cur = do
    ahead ← lookahead source
    if ahead.type == b'.'
        then (do
          next source
          set_parse_id source false
          id ← expect source TokenType.id
          set_parse_id source true
          self (again (Node.binary BinaryNodeType.member_node cur (from_value id.value))))
        else if ahead.type == b'['
        then (do
          next source
          index ← self (start Level.expr)
          expect source b']'
          self (again (Node.binary BinaryNodeType.member_node cur index)))
        else pure cur

  unfoldable pub grammar_member_expr : Parser L D (Node D)
  unfolding grammar_primary_expr
  grammar_member_expr = do
    set_regexp source true
    ahead ← lookahead source
    if ahead.type == TokenType.function || ahead.type == TokenType.new
        then fail
        else (do cur ← grammar_primary_expr; set_regexp source false; self (member_loop cur))

  unfoldable pub grammar_left_hand_side_expr : Parser L D (Node D)
  grammar_left_hand_side_expr = do cur ← self (start Level.member); self (left_hand_side_loop cur)

  unfoldable pub grammar_postfix_expr : Parser L D (Node D)
  grammar_postfix_expr = do
    operand ← self (start Level.left_hand_side)
    nxt ← lookahead source
    if nxt.line_before
        then pure operand
        else if nxt.type == TokenType.inc
        then (do next source; pure (Node.unary UnaryNodeType.post_inc_node operand))
        else if nxt.type == TokenType.dec
        then (do next source; pure (Node.unary UnaryNodeType.post_dec_node operand))
        else pure operand

  -- behind the `switch` of `grammar_unaryExpr`
  unfoldable pub unary_case : Option UnaryNodeType → Parser L D (Node D)
  unary_case none = self (start Level.postfix)
  unary_case (some class) = do
    next source
    operand ← self (start Level.unary)
    pure (Node.unary class operand)

  unfoldable pub grammar_unary_expr : Parser L D (Node D)
  unfolding unary_case
  grammar_unary_expr = do
    set_regexp source true
    lh ← lookahead source
    set_regexp source false
    unary_case (unary_type lh.type)

  -- `BINARY_HEAD` up to the loop
  unfoldable pub grammar_binary : Level → Parser L D (Node D)
  grammar_binary level = do cur ← self (start (previous level)); self (binary_loop level cur)

  -- behind the `switch` of `BINARY_HEAD`
  unfoldable pub binary_case : Level → Node D → Option BinaryNodeType → Parser L D (Node D)
  binary_case level cur none = pure cur
  binary_case level cur (some type) = do
    next source
    right ← self (start (previous level))
    self (binary_loop level (Node.binary type cur right))

  -- a round of the loop from `BINARY_HEAD` to `BINARY_FOOT`
  unfoldable pub binary_round : Level → Node D → Parser L D (Node D)
  unfolding binary_case
  binary_round level cur = do
    ahead ← lookahead source
    λ gmr. binary_case level cur (binary_type gmr.no_in level ahead.type) gmr

  unfoldable pub grammar_cond_expr : Parser L D (Node D)
  grammar_cond_expr = do
    node ← self (start Level.l_or)
    ahead ← lookahead source
    if ahead.type == b'?'
        then (do
          next source
          t_exp ← self (start Level.assign)
          expect source b':'
          f_exp ← self (start Level.assign)
          pure (Node.ternary TernaryNodeType.cond_node node t_exp f_exp))
        else pure node

  -- behind the `switch` of `grammar_assignExpr`
  unfoldable pub assign_case : Node D → Option BinaryNodeType → Parser L D (Node D)
  assign_case node none = pure node
  assign_case node (some type) = do
    next source
    right ← self (start Level.assign)
    pure (Node.binary type node right)

  unfoldable pub grammar_assign_expr : Parser L D (Node D)
  unfolding assign_case
  grammar_assign_expr = do
    node ← self (start Level.cond)
    ahead ← lookahead source
    assign_case node (assign_type ahead.type)

  unfoldable pub run_call : Call D → Parser L D (Node D)
  run_call (start Level.member) = grammar_member_expr
  run_call (start Level.left_hand_side) = grammar_left_hand_side_expr
  run_call (start Level.postfix) = grammar_postfix_expr
  run_call (start Level.unary) = grammar_unary_expr
  run_call (start Level.cond) = grammar_cond_expr
  run_call (start Level.assign) = grammar_assign_expr
  run_call (start level) = grammar_binary level
  run_call (member_loop cur) = member_round member_loop cur
  run_call (left_hand_side_loop cur) = member_round left_hand_side_loop cur
  run_call (binary_loop level cur) = binary_round level cur

module _ {L D : Type 0} (source : Source L D) where
  unfoldable pub parse : ℕ → Call D → Parser L D (Node D)
  unfolding run_call
  parse zero call gmr = fault out_of_fuel
  parse (suc fuel) call gmr = run_call source (parse fuel) call gmr

  abbrev pub grammar_expr : ℕ → Parser L D (Node D)
  grammar_expr fuel = parse fuel (start Level.expr)

  unfoldable pub grammar_expr_stmt : ℕ → Parser L D (Node D)
  unfolding expect_semicolon
  grammar_expr_stmt fuel = do
    node ← grammar_expr fuel
    expect_semicolon source
    pure (Node.unary UnaryNodeType.expr_stmt node)
