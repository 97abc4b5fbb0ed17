-- ===== src/Tests/Parser.antt =====
-- libs/js/grammar.c on a list of tokens.
use saki_os.Base.{
  ℕ, ◌≡◌, ◌≢◌, ◌+◌, ◌*◌, ◌<◌, ◌++◌, refl, true, false, List, [], ◌∷◌, ok, fault, out_of_fuel, arith,
  length,
}
use saki_os.Js.Grammar.Derives.{Derives}
use saki_os.Js.Grammar.Expr.{
  Level, grammar_expr, parse, grammar_binary, grammar_assign_expr, grammar_cond_expr,
  grammar_unary_expr, unary_type, grammar_postfix_expr, grammar_left_hand_side_expr,
  grammar_member_expr, member_round, binary_round, binary_type, assign_type,
}
use saki_os.Js.Grammar.Sound.Whole.{grammar_expr-Derives}
use saki_os.Js.Grammar.Tape.{Tape, tape, strip, view}
use saki_os.Js.Grammar.{grammar_new, lookahead}
use saki_os.Js.Node.{BinaryNodeType, Node}
use saki_os.Js.Token.{Token, Value}
use saki_os.Js.TokenType

abbrev mark : ℕ → Token ℕ
mark type = record { type = type; value = Value.null; line_before = false }

abbrev numeral : ℕ → Token ℕ
numeral n = record { type = TokenType.num; value = Value.number n; line_before = false }

-- `1 + 2 * 3 ;`
abbrev sum : List (Token ℕ)
sum = numeral 1 ∷ mark b'+' ∷ numeral 2 ∷ mark b'*' ∷ numeral 3 ∷ mark b';' ∷ []

sum-enough : 18 * length (strip sum) + 17 < 200
unfolding strip
sum-enough = omega arith

grammar_expr-Derives_example :
    (grammar_expr tape 200 (grammar_new sum) ≢ fault out_of_fuel)
    × ((n : Node ℕ) (gmr : Tape ℕ)
        → grammar_expr tape 200 (grammar_new sum) ≡ ok (n, gmr)
        → (us : List (Token ℕ)) × (strip sum ≡ us ++ view gmr) × Derives true Level.expr us n)
grammar_expr-Derives_example = grammar_expr-Derives sum 200 sum-enough

sum_parses :
    grammar_expr tape 200 (grammar_new sum)
    ≡ ok (
      Node.binary BinaryNodeType.add_node
          (Node.number 1)
          (Node.binary BinaryNodeType.mul_node (Node.number 2) (Node.number 3)),
      record (grammar_new []) { next = mark b';' ∷ []; list_len = 1 },
    )
unfolding parse grammar_binary grammar_assign_expr grammar_cond_expr grammar_unary_expr lookahead
    unary_type grammar_postfix_expr grammar_left_hand_side_expr grammar_member_expr member_round
    binary_round binary_type assign_type
sum_parses = refl
