-- ===== src/Js/Grammar/Tape.antt =====
-- The parser of libs/js/grammar.c on a list of tokens, behind which END_OF_FILE comes for ever.
use saki_os.Base.{
  ℕ, ◌-◌, ◌≡◌, ◌≢◌, refl, Bool, true, false, List, [], ◌∷◌, ◌++◌, ◌==◌, ==→eq, if◌then◌else◌,
  length, ok, arith, Bool-cases, inl, inr,
}
use saki_os.Base.Ensures.{Ensures, failed}
use saki_os.Js.Grammar.{Source, Grammar, Parser, ◌>>=◌, next, pushback, lookahead, expect}
use saki_os.Js.Token.{Token, js_alloc_token}
use saki_os.Js.TokenType

abbrev pub Tape : Type 0 → Type 0
Tape D = Grammar (List (Token D)) D

-- `next` returns a token that was pushed back, and the parser as it was before.
pub next-pushback :
    {L D : Type 0} (source : Source L D) (t : Token D) (gmr : Grammar L D)
    → next source (pushback t gmr) ≡ ok (t, gmr)
unfolding next pushback
next-pushback source t gmr = ground arith

module _ {D : Type 0} where
  abbrev pub tape : Source (List (Token D)) D
  tape = record {
    lex_next = λ ts. elim ts [
      | [] ↦ ok (record (js_alloc_token TokenType.end_of_file) { line_before = true }, [])
      | t ∷ rest ↦ ok (t, rest)
    ];
    set_regexp = λ b ts. ts;
    set_parse_id = λ b ts. ts;
  }

  -- in front of the other tokens, unless it is END_OF_FILE
  abbrev pub keep : Token D → List (Token D) → List (Token D)
  keep t ts = if t.type == TokenType.end_of_file then ts else t ∷ ts

  unfoldable pub strip : List (Token D) → List (Token D)
  strip [] = []
  strip (t ∷ ts) = keep t (strip ts)

  -- the tokens in front of the parser
  unfoldable pub view : Tape D → List (Token D)
  view gmr = strip gmr.next ++ strip gmr.lex

  -- The length of the queue is kept, and `noIn` does not change.
  pub record IsValid (no_in : Bool) (gmr : Tape D) : Type 0 where
    pub queue : gmr.list_len ≡ length gmr.next
    pub flag : gmr.no_in ≡ no_in

  pub keep-append : (t : Token D) (xs ys : List (Token D)) → keep t xs ++ ys ≡ keep t (xs ++ ys)
  keep-append t xs ys = ground arith

  pub keep-token :
      (t : Token D) (xs : List (Token D)) → t.type ≢ TokenType.end_of_file → keep t xs ≡ t ∷ xs
  keep-token t xs h = ground arith

  -- `next` on a valid parser returns the first token.
  pub record TakesNext (no_in : Bool) (gmr : Tape D) : Type 0 where
    pub token : Token D
    pub after : Tape D
    pub valid : IsValid no_in after
    pub first : view gmr ≡ keep token (view after)
    pub runs : next tape gmr ≡ ok (token, after)

  next-TakesNext_at :
      (no_in flag : Bool) (lex queue : List (Token D)) (len : ℕ)
      → len ≡ length queue
      → flag ≡ no_in
      → TakesNext no_in (record { lex = lex; next = queue; list_len = len; no_in = flag })
  unfolding next view strip
  next-TakesNext_at no_in flag lex (t ∷ queue) len e f = record {
    token = t;
    after = record { lex = lex; next = queue; list_len = len - 1; no_in = flag };
    valid = record { queue = omega (arith, e); flag = f };
    first = keep-append t (strip queue) (strip lex);
    runs = ground (arith, e);
  }
  next-TakesNext_at no_in flag [] [] len e f = record {
    token = record (js_alloc_token TokenType.end_of_file) { line_before = true };
    after = record { lex = []; next = []; list_len = len; no_in = flag };
    valid = record { queue = e; flag = f };
    first = unfold js_alloc_token in refl;
    runs = ground (arith, e);
  }
  next-TakesNext_at no_in flag (t ∷ rest) [] len e f = record {
    token = t;
    after = record { lex = rest; next = []; list_len = len; no_in = flag };
    valid = record { queue = e; flag = f };
    first = refl;
    runs = ground (arith, e);
  }

  pub next-TakesNext : {no_in : Bool} (gmr : Tape D) → IsValid no_in gmr → TakesNext no_in gmr
  next-TakesNext {no_in} gmr v =
      next-TakesNext_at no_in gmr.no_in gmr.lex gmr.next gmr.list_len v.queue v.flag

  pub next-pushback-tape : (t : Token D) (gmr : Tape D) → next tape (pushback t gmr) ≡ ok (t, gmr)
  next-pushback-tape t gmr = next-pushback tape t gmr

  module _ {B : Type 0} {Q : B × Tape D → Type 0} where
    pub if-Ensures :
        (b : Bool) (p q : Parser (List (Token D)) D B) {g : Tape D}
        → (b ≡ true → Ensures Q (p g))
        → (b ≡ false → Ensures Q (q g))
        → Ensures Q ((if b then p else q) g)
    if-Ensures true p q hp hq = hp refl
    if-Ensures false p q hp hq = hq refl

    -- After `lookahead` the token is at the head of the queue.
    pub lookahead-Ensures :
        {no_in : Bool} (f : Token D → Parser (List (Token D)) D B) {gmr : Tape D}
        → IsValid no_in gmr
        → ((t : Token D) (g : Tape D)
            → IsValid no_in g
            → view gmr ≡ keep t (view g)
            → Ensures Q (f t (pushback t g)))
        → Ensures Q ((lookahead tape >>= f) gmr)
    unfolding lookahead
    lookahead-Ensures f {gmr} v k =
        let n = next-TakesNext gmr v in rw (n.runs) (k n.token n.after n.valid n.first)

    -- A `next` behind it takes the same token.
    pub next-Ensures :
        (f : Token D → Parser (List (Token D)) D B) (t : Token D) (g : Tape D)
        → Ensures Q (f t g)
        → Ensures Q ((next tape >>= f) (pushback t g))
    next-Ensures f t g h = rw (next-pushback-tape t g) h

    pub expect-Ensures :
        {no_in : Bool} (f : Token D → Parser (List (Token D)) D B) (type : ℕ) {gmr : Tape D}
        → IsValid no_in gmr
        → ((t : Token D) (g : Tape D)
            → t.type ≡ type
            → IsValid no_in g
            → view gmr ≡ keep t (view g)
            → Ensures Q (f t g))
        → Ensures Q ((expect tape type >>= f) gmr)
    unfolding expect
    expect-Ensures f type {gmr} v k =
        let n = next-TakesNext gmr v in
        rw (n.runs) (elim (Bool-cases (n.token.type == type)) [
          | inl e ↦ rw e (k n.token n.after (==→eq n.token.type type e) n.valid n.first)
          | inr e ↦ rw e (failed (λ q. cc))
        ])

  pub pushback-IsValid :
      {no_in : Bool} (t : Token D) {g : Tape D} → IsValid no_in g → IsValid no_in (pushback t g)
  unfolding pushback
  pushback-IsValid t v = record { queue = ground (arith, v.queue); flag = v.flag }

  pub view-pushback : (t : Token D) (g : Tape D) → view (pushback t g) ≡ keep t (view g)
  unfolding view pushback strip
  view-pushback t g = keep-append t (strip g.next) (strip g.lex)
