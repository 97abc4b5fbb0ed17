-- ===== src/Js/Grammar.antt =====
-- libs/js/grammar.c: the token queue of the parser. The lexer is the parameter `Source`, of which
-- `lexer` is the one of libs/js/lex.c.
pub mod Expr
pub mod Derives
pub mod Tape
pub mod Sound
use saki_os.Base.{
  ℕ, zero, suc, ◌+◌, ◌-◌, Bool, true, false, ◌||◌, List, [], ◌∷◌, ◌==◌, if◌then◌else◌, Result, ok,
  fault, assertion, invalid,
}
use saki_os.Base as Base
use saki_os.Js.Lex.States.{lex_next}
use saki_os.Js.Lex.{Env, Lex}
use saki_os.Js.Token.{Token}
use saki_os.Js.TokenType

pub record Source (L D : Type 0) : Type 0 where
  pub lex_next : L → Result (Token D × L)
  pub set_regexp : Bool → L → L
  pub set_parse_id : Bool → L → L

abbrev pub lexer : {D : Type 0} → Env D → ℕ → Source (Lex D) D
lexer env fuel = record {
  lex_next = lex_next env fuel;
  set_regexp = λ b l. record l { regexp = b };
  set_parse_id = λ b l. record l { parse_id = b };
}

-- `next` is the queue of the tokens that were pushed back.
pub record Grammar (L D : Type 0) : Type 0 where
  pub lex : L
  pub next : List (Token D)
  pub list_len : ℕ
  pub no_in : Bool

abbrev pub grammar_new : {L D : Type 0} → L → Grammar L D
grammar_new lex = record { lex = lex; next = []; list_len = 0; no_in = true }

-- A function of the parser changes the parser's state.
abbrev pub Parser {ℓ} : Type 0 → Type 0 → Type ℓ → Type ℓ
Parser L D A = Grammar L D → Result (A × Grammar L D)

module _ {L D : Type 0} where
  abbrev pub pure {ℓ} : {A : Type ℓ} → A → Parser L D A
  pure a gmr = ok (a, gmr)

  abbrev pub fail {ℓ} : {A : Type ℓ} → Parser L D A
  fail gmr = fault assertion

  infixl 5 ◌>>=◌ ◌>>◌
  abbrev pub ◌>>=◌ {ℓ κ} :
      {A : Type ℓ} {B : Type κ} → Parser L D A → (A → Parser L D B) → Parser L D B
  p >>= f = λ gmr. Base.◌>>=◌ (p gmr) (λ r. f r.0 r.1)

  abbrev pub ◌>>◌ {ℓ κ} : {A : Type ℓ} {B : Type κ} → Parser L D A → Parser L D B → Parser L D B
  p >> q = p >>= λ _. q

  unfoldable pub pushback : Token D → Grammar L D → Grammar L D
  pushback token gmr = record gmr { list_len = gmr.list_len + 1; next = token ∷ gmr.next }

  module _ (source : Source L D) where
    unfoldable pub next : Parser L D (Token D)
    next gmr =
        if gmr.list_len == 0
        then Base.◌>>=◌ (source.lex_next gmr.lex) (λ r. ok (r.0, record gmr { lex = r.1 }))
        else elim gmr.next [
          | [] ↦ fault invalid
          | removed ∷ rest ↦ ok (removed, record gmr { list_len = gmr.list_len - 1; next = rest })
        ]

    unfoldable pub lookahead : Parser L D (Token D)
    unfolding next pushback
    lookahead = do ret ← next; λ gmr. ok (ret, pushback ret gmr)

    unfoldable pub expect : ℕ → Parser L D (Token D)
    unfolding next
    expect type = do ret ← next; if ret.type == type then pure ret else fail

    abbrev pub set_regexp : Bool → Parser L D (Unit {0})
    set_regexp b gmr = ok (tt, record gmr { lex = source.set_regexp b gmr.lex })

    abbrev pub set_parse_id : Bool → Parser L D (Unit {0})
    set_parse_id b gmr = ok (tt, record gmr { lex = source.set_parse_id b gmr.lex })

    unfoldable pub expect_semicolon : Parser L D Bool
    unfolding next lookahead
    expect_semicolon = do
      set_regexp true
      nxt ← lookahead
      set_regexp false
      if nxt.type == b';'
          then (do next; pure true)
          else if nxt.type == b'}' || nxt.line_before
          then pure true
          else fail
