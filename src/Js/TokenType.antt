-- ===== src/Js/TokenType.antt =====
-- `enum js_token_type_t` of include/js/type.h, kept as numbers, since the lexer computes with its
-- flags: a character stands for itself, and `=` behind it sets `assign_flag`.
use Prim.Native.Nat.{bit_or}
use saki_os.Base.{ℕ, ◌+◌}

abbrev pub assign_flag : ℕ
assign_flag = 0x80

abbrev pub double_flag : ℕ
double_flag = 0x100

abbrev pub other_flag : ℕ
other_flag = 0x200

abbrev pub keyword_flag : ℕ
keyword_flag = 0x400

abbrev pub full_eq : ℕ
full_eq = other_flag

abbrev pub full_ineq : ℕ
full_ineq = other_flag + 1

abbrev pub str : ℕ
str = other_flag + 2

abbrev pub num : ℕ
num = other_flag + 3

abbrev pub id : ℕ
id = other_flag + 4

abbrev pub shl : ℕ
shl = other_flag + 6

abbrev pub shr : ℕ
shr = other_flag + 7

abbrev pub ushr : ℕ
ushr = other_flag + 8

abbrev pub shl_assign : ℕ
shl_assign = other_flag + 9

abbrev pub shr_assign : ℕ
shr_assign = other_flag + 10

abbrev pub ushr_assign : ℕ
ushr_assign = other_flag + 11

abbrev pub end_of_file : ℕ
end_of_file = keyword_flag + 26

abbrev pub reserved_word : ℕ
reserved_word = keyword_flag + 30

abbrev pub reserved_strict : ℕ
reserved_strict = keyword_flag + 31

-- `ADD | DOUBLE_FLAG`
abbrev pub inc : ℕ
inc = bit_or b'+' double_flag

abbrev pub dec : ℕ
dec = bit_or b'-' double_flag

abbrev pub l_and : ℕ
l_and = bit_or b'&' double_flag

abbrev pub l_or : ℕ
l_or = bit_or b'|' double_flag

abbrev pub eq : ℕ
eq = bit_or b'=' assign_flag

abbrev pub ineq : ℕ
ineq = bit_or b'!' assign_flag

abbrev pub lteq : ℕ
lteq = bit_or b'<' assign_flag

abbrev pub gteq : ℕ
gteq = bit_or b'>' assign_flag

abbrev pub regexp : ℕ
regexp = other_flag + 5

abbrev pub delete : ℕ
delete = keyword_flag + 6

abbrev pub function : ℕ
function = keyword_flag + 11

abbrev pub in_operator : ℕ
in_operator = keyword_flag + 13

abbrev pub instanceof : ℕ
instanceof = keyword_flag + 14

abbrev pub new : ℕ
new = keyword_flag + 15

abbrev pub this : ℕ
this = keyword_flag + 18

abbrev pub typeof : ℕ
typeof = keyword_flag + 21

abbrev pub void : ℕ
void = keyword_flag + 23

abbrev pub null_lit : ℕ
null_lit = keyword_flag + 27

abbrev pub true_lit : ℕ
true_lit = keyword_flag + 28

abbrev pub false_lit : ℕ
false_lit = keyword_flag + 29

abbrev pub mul_assign : ℕ
mul_assign = bit_or b'*' assign_flag

abbrev pub div_assign : ℕ
div_assign = bit_or b'/' assign_flag

abbrev pub mod_assign : ℕ
mod_assign = bit_or b'%' assign_flag

abbrev pub xor_assign : ℕ
xor_assign = bit_or b'^' assign_flag

abbrev pub add_assign : ℕ
add_assign = bit_or b'+' assign_flag

abbrev pub sub_assign : ℕ
sub_assign = bit_or b'-' assign_flag

abbrev pub and_assign : ℕ
and_assign = bit_or b'&' assign_flag

abbrev pub or_assign : ℕ
or_assign = bit_or b'|' assign_flag
