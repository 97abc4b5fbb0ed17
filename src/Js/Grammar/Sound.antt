-- ===== src/Js/Grammar/Sound.antt =====
-- libs/js/grammar.c on a list of tokens: what the parser returns is a tree of the grammar for the
-- tokens that it took, and two units of fuel for each level and token are enough.
pub mod Tables
pub mod Rounds
pub mod Primary
pub mod Whole
use mathlib.Core.List.{append_assoc}
use saki_os.Base.{
  ℕ, zero, suc, ◌+◌, ◌*◌, ◌≤◌, ◌<◌, ◌≡◌, ◌≢◌, refl, ap, sym, subst, ◌∙◌, Bool, true, false, ◌||◌,
  List, [], ◌∷◌, ◌++◌, Option, none, some, ◌==◌, ==→eq, length, length-append, if◌then◌else◌,
  Bool-cases, inl, inr, arith, Result, ok, fault, assertion,
}
use saki_os.Base.Ensures.{Ensures, holds, failed, Ensures-if, Ensures-bind, Ensures-map}
use saki_os.Js.Grammar.Derives.{Derives, literal_node}
use saki_os.Js.Grammar.Expr.{
  Level, Call, start, member_loop, left_hand_side_loop, binary_loop, previous, binary_type,
  unary_type, assign_type,
}
use saki_os.Js.Grammar.Tape.{
  Tape, tape, keep, keep-token, view, IsValid, lookahead-Ensures, next-Ensures, expect-Ensures,
  pushback-IsValid, view-pushback,
}
use saki_os.Js.Grammar.{Parser, ◌>>=◌, pushback}
use saki_os.Js.Node.{Node}
use saki_os.Js.Token.{Token}
use saki_os.Js.TokenType

-- what a call returns for the tokens that it takes; a loop extends the tree that it is given
unfoldable pub Meaning : {D : Type 0} → Bool → Call D → List (Token D) → Node D → Type 0
Meaning no_in (start level) us n = Derives no_in level us n
Meaning no_in (member_loop cur) us n =
    (ts : List (Token _))
    → Derives no_in Level.member ts cur
    → Derives no_in Level.member (ts ++ us) n
Meaning no_in (left_hand_side_loop cur) us n =
    (ts : List (Token _))
    → Derives no_in Level.member ts cur
    → Derives no_in Level.left_hand_side (ts ++ us) n
Meaning no_in (binary_loop level cur) us n =
    (ts : List (Token _)) → Derives no_in level ts cur → Derives no_in level (ts ++ us) n

-- the calls that take no token first go down
unfoldable pub level_rank : Level → ℕ
level_rank Level.member = 1
level_rank Level.left_hand_side = 2
level_rank Level.postfix = 3
level_rank Level.unary = 4
level_rank Level.mul = 5
level_rank Level.add = 6
level_rank Level.shift = 7
level_rank Level.rel = 8
level_rank Level.eq = 9
level_rank Level.and = 10
level_rank Level.xor = 11
level_rank Level.or = 12
level_rank Level.l_and = 13
level_rank Level.l_or = 14
level_rank Level.cond = 15
level_rank Level.assign = 16
level_rank Level.expr = 17

unfoldable pub rank : {D : Type 0} → Call D → ℕ
rank (start level) = level_rank level
rank _ = 0

pub level_rank_bound : (level : Level) → level_rank level ≤ 17
unfolding level_rank
level_rank_bound level = ground arith

-- END_OF_FILE is no operator.
pub binary_type-end :
    (no_in : Bool) (level : Level) → binary_type no_in level TokenType.end_of_file ≡ none
unfolding binary_type
binary_type-end no_in Level.mul = refl
binary_type-end no_in Level.rel = ground arith
binary_type-end no_in level = refl

pub unary_type-end : unary_type TokenType.end_of_file ≡ none
unfolding unary_type
unary_type-end = refl

pub assign_type-end : assign_type TokenType.end_of_file ≡ none
unfolding assign_type
assign_type-end = refl

module _ {D : Type 0} (no_in : Bool) where
  pub record Reads (gmr : Tape D) (call : Call D) (n : Node D) (after : Tape D) : Type 0 where
    pub valid : IsValid no_in after
    pub taken : List (Token D)
    pub split : view gmr ≡ taken ++ view after
    pub meaning : Meaning no_in call taken n

  abbrev pub IsRead : Tape D → Call D → Node D × Tape D → Type 0
  IsRead gmr call r = Reads gmr call r.0 r.1

-- Fuel that is enough for a call.
unfoldable pub need : {D : Type 0} → Call D → Tape D → ℕ
need call gmr = 18 * length (view gmr) + rank call

module _ {D : Type 0} (no_in : Bool) where
  -- A run that takes up where tokens have been taken, as a run of the whole call.
  pub Ensures-after :
      (gmr g : Tape D) (call call' : Call D) {r : Result (Node D × Tape D)} (ts : List (Token D))
      → view gmr ≡ ts ++ view g
      → ((us : List (Token D)) (n : Node D)
          → Meaning no_in call' us n
          → Meaning no_in call (ts ++ us) n)
      → Ensures (IsRead no_in g call') r
      → Ensures (IsRead no_in gmr call) r
  Ensures-after gmr g call call' ts split meaning e = Ensures-map e (λ r h. record {
    valid = h.valid;
    taken = ts ++ h.taken;
    split = split ∙ ap (λ v. ts ++ v) h.split ∙ sym (append_assoc ts h.taken (view r.1));
    meaning = meaning h.taken r.0 h.meaning;
  })

  -- a call that ends
  pub Ensures-done :
      (gmr g : Tape D) (call : Call D) (n : Node D) (ts : List (Token D))
      → IsValid no_in g
      → view gmr ≡ ts ++ view g
      → Meaning no_in call ts n
      → Ensures (IsRead no_in gmr call) (ok (n, g))
  Ensures-done gmr g call n ts v split meaning =
      holds (record { valid = v; taken = ts; split = split; meaning = meaning })

  -- a call that ends with the token of the last `lookahead` left where it is
  pub Ensures-pure :
      (gmr g : Tape D) (call : Call D) (n : Node D) (t : Token D) (ts : List (Token D))
      → IsValid no_in g
      → view gmr ≡ ts ++ keep t (view g)
      → Meaning no_in call ts n
      → Ensures (IsRead no_in gmr call) (ok (n, pushback t g))
  Ensures-pure gmr g call n t ts v split meaning = holds (record {
    valid = pushback-IsValid t v;
    taken = ts;
    split = split ∙ ap (λ v. ts ++ v) (sym (view-pushback t g));
    meaning = meaning;
  })

pub length-split :
    {D : Type 0} (ts : List (Token D)) (gmr g : Tape D)
    → view gmr ≡ ts ++ view g
    → length (view gmr) ≡ length ts + length (view g)
length-split ts gmr g e = ap length e ∙ length-append ts (view g)

pub first_token :
    {D : Type 0} (t : Token D) (gmr g : Tape D)
    → t.type ≢ TokenType.end_of_file
    → view gmr ≡ keep t (view g)
    → view gmr ≡ t ∷ view g
first_token t gmr g h e = e ∙ keep-token t (view g) h

-- a `lookahead` in front of a call
pub pushed_back :
    {D : Type 0} (t : Token D) (gmr g : Tape D)
    → view gmr ≡ keep t (view g)
    → view gmr ≡ view (pushback t g)
pushed_back t gmr g e = e ∙ sym (view-pushback t g)
