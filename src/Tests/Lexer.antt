-- ===== src/Tests/Lexer.antt =====
-- libs/js/lex.c.
use saki_os.Base.{
  ℕ, ◌+◌, ◌*◌, ◌≡◌, ◌≢◌, ◌⊎◌, refl, false, true, ◌&&◌, leb, ◌<◌, if◌then◌else◌, none, List, [], ◌∷◌,
  ok, fault, out_of_fuel, arith, length,
}
use saki_os.DataStruct.Hashmap.{or_null}
use saki_os.Js.Lex.Default.{state_default, case_operator, case_slash}
use saki_os.Js.Lex.Keywords.{lookup_keyword, keyword_map}
use saki_os.Js.Lex.Keywords.Table.{last_value, lookup_keyword-last_value}
use saki_os.Js.Lex.States.{run_state, state_single_line_comment, lex_next}
use saki_os.Js.Lex.Termination.{stage}
use saki_os.Js.Lex.Termination.Loop.{
  done, round, EndsInComment, InComment, lex_next-EndsInComment, lex_next-halts,
}
use saki_os.Js.Lex.Termination.Progress.{Taken, lex_next-Taken}
use saki_os.Js.Token.{Token, Value, js_alloc_token}
use saki_os.Js.Lex.{Env, Lex, State}

-- ASCII letters and the decimal digits have a category; a number is a natural number.
abbrev category : ℕ → ℕ
category c =
    if leb b'a' c && leb c b'z'
    then 2
    else if leb b'A' c && leb c b'Z'
    then 1
    else if leb b'0' c && leb c b'9'
    then 9
    else 0

abbrev ascii : Env ℕ
ascii = record { get_type = category; of_int = λ n. n; mul = λ a b. a * b; add = λ a b. a + b }

abbrev start : List ℕ → Lex ℕ
start text = record {
  content = text;
  ptr = 0;
  state = State.default;
  regexp = false;
  strict_mode = true;
  line_before = false;
  parse_id = true;
  buffer = [];
  size = 0;
  number = 0;
}

-- ` //`
abbrev comment : Lex ℕ
comment = start (0x20 ∷ b'/' ∷ b'/' ∷ [])

comment-EndsInComment : EndsInComment ascii comment
unfolding EndsInComment run_state state_default case_slash state_single_line_comment InComment
comment-EndsInComment = (
  record comment { ptr = 3; state = State.single_line_comment },
  round refl (round refl (round refl done)),
  (tt, refl),
)

lex_next-EndsInComment_example : lex_next ascii 7 comment ≡ fault out_of_fuel
lex_next-EndsInComment_example = lex_next-EndsInComment ascii comment comment-EndsInComment 7

-- ` (a`
abbrev call : Lex ℕ
call = start (0x20 ∷ b'(' ∷ b'a' ∷ [])

abbrev paren : Token ℕ
paren = record { type = b'('; value = Value.null; line_before = false }

call_runs : lex_next ascii 2 call ≡ ok (paren, record call { ptr = 2 })
unfolding lex_next run_state state_default case_operator js_alloc_token
call_runs = refl

lex_next-Taken_example : Taken call paren (record call { ptr = 2 })
lex_next-Taken_example =
    lex_next-Taken ascii 2 call paren (record call { ptr = 2 }) refl (omega arith) call_runs

-- `if (x)`
abbrev source : Lex ℕ
source = start (b'i' ∷ b'f' ∷ 0x20 ∷ b'(' ∷ b'x' ∷ b')' ∷ [])

source-enough : 2 * length source.content + stage source.state < 20 + 2 * source.ptr
unfolding stage
source-enough = omega arith

lex_next-halts_example : (lex_next ascii 20 source ≢ fault out_of_fuel) ⊎ EndsInComment ascii source
lex_next-halts_example = lex_next-halts ascii 20 source refl (omega arith) source-enough

abbrev if_word : List ℕ
if_word = b'i' ∷ b'f' ∷ []

lookup_keyword-last_value_example :
    lookup_keyword if_word ≡ ok (or_null 0 (last_value keyword_map if_word none))
lookup_keyword-last_value_example = lookup_keyword-last_value if_word
