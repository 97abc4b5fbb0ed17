-- ===== src/Js/Grammar/Sound/Tables.antt =====
-- libs/js/grammar.c: the operators that the parser tests for are those of the grammar.
use saki_os.Base.{ℕ, ◌<◌, ◌≡◌, refl, Bool, true, false, some, arith}
use saki_os.Js.Grammar.Expr.{Level, previous, binary_type, unary_type, assign_type}
use saki_os.Js.Grammar.Derives.{
  operators, unary_operators, assignments, entry_of, Tighter, under_left_hand_side, under_postfix,
  under_unary, under_mul, under_add, under_shift, under_rel, under_eq, under_and, under_xor,
  under_or, under_l_and, under_l_or, under_cond, under_assign, under_expr,
}
use saki_os.Js.Grammar.Sound.{level_rank}
use saki_os.Js.Node.{BinaryNodeType}

pub binary_type-operators :
    (no_in : Bool) (level : Level) (t : ℕ)
    → binary_type no_in level t ≡ entry_of (operators no_in level) t
unfolding binary_type entry_of operators
binary_type-operators true Level.rel t = ground arith
binary_type-operators false Level.rel t = refl
binary_type-operators no_in level t = refl

pub unary_type-operators : (t : ℕ) → unary_type t ≡ entry_of unary_operators t
unfolding unary_type entry_of unary_operators
unary_type-operators t = refl

pub assign_type-assignments : (t : ℕ) → assign_type t ≡ entry_of assignments t
unfolding assign_type entry_of assignments
assign_type-assignments t = refl

pub previous-Tighter :
    (level : Level)
    → level_rank (previous level) < level_rank level
    → Tighter (previous level) level
unfolding level_rank
previous-Tighter Level.member h = absurd (omega (arith, h))
previous-Tighter Level.left_hand_side h = under_left_hand_side
previous-Tighter Level.postfix h = under_postfix
previous-Tighter Level.unary h = under_unary
previous-Tighter Level.mul h = under_mul
previous-Tighter Level.add h = under_add
previous-Tighter Level.shift h = under_shift
previous-Tighter Level.rel h = under_rel
previous-Tighter Level.eq h = under_eq
previous-Tighter Level.and h = under_and
previous-Tighter Level.xor h = under_xor
previous-Tighter Level.or h = under_or
previous-Tighter Level.l_and h = under_l_and
previous-Tighter Level.l_or h = under_l_or
previous-Tighter Level.cond h = under_cond
previous-Tighter Level.assign h = under_assign
previous-Tighter Level.expr h = under_expr

-- where a level has an operator
pub operator-Tighter :
    (no_in : Bool) (level : Level) (t : ℕ) {type : BinaryNodeType}
    → binary_type no_in level t ≡ some type
    → Tighter (previous level) level
unfolding binary_type
operator-Tighter no_in Level.member t e = absurd (ground (arith, e))
operator-Tighter no_in Level.left_hand_side t e = under_left_hand_side
operator-Tighter no_in Level.postfix t e = under_postfix
operator-Tighter no_in Level.unary t e = under_unary
operator-Tighter no_in Level.mul t e = under_mul
operator-Tighter no_in Level.add t e = under_add
operator-Tighter no_in Level.shift t e = under_shift
operator-Tighter no_in Level.rel t e = under_rel
operator-Tighter no_in Level.eq t e = under_eq
operator-Tighter no_in Level.and t e = under_and
operator-Tighter no_in Level.xor t e = under_xor
operator-Tighter no_in Level.or t e = under_or
operator-Tighter no_in Level.l_and t e = under_l_and
operator-Tighter no_in Level.l_or t e = under_l_or
operator-Tighter no_in Level.cond t e = under_cond
operator-Tighter no_in Level.assign t e = under_assign
operator-Tighter no_in Level.expr t e = under_expr
