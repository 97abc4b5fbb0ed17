-- ===== src/Js/Lex/Termination/Default.antt =====
-- `stateDefault` of libs/js/lex.c takes a character, or returns END_OF_FILE.
use saki_os.Base.{
  ℕ, ◌≤◌, ◌<◌, ◌≡◌, Bool, true, false, ◌==◌, if◌then◌else◌, length, fault, assertion, arith,
}
use saki_os.Js.Lex.Default.{
  case_slash, case_lt, case_gt, case_equal, case_double, case_assign, case_identifier, case_zero,
  give, go_on, case_category, case_word, case_operator, state_default,
}
use saki_os.Js.Lex.Termination.{Moved, Proper}
use saki_os.Js.TokenType
use saki_os.Js.Lex.{Env, Lex, Step, advance, lookahead, append_to_buffer, create_buffer}

pub either-Proper :
    {D : Type 0} {lex : Lex D} (b : Bool) {x y : Step D}
    → Proper lex x
    → Proper lex y
    → Proper lex (if b then x else y)
either-Proper true p q = p
either-Proper false p q = q

pub give-Proper :
    {D : Type 0} {lex : Lex D}
    → lex.ptr ≤ length lex.content
    → (type : ℕ) → Proper lex (give type lex)
give-Proper inside type = record {
  halts = ground arith;
  moves = λ o l e. ground arith;
  keeps = λ t l e. ground arith;
}

pub go_on-Proper : {D : Type 0} {lex l : Lex D} → Moved lex l → Proper lex (go_on l)
go_on-Proper m = record {
  halts = ground arith;
  moves = λ o l' e. ground arith;
  keeps = λ t l' e. ground arith;
}

pub assertion-Proper : {D : Type 0} {lex : Lex D} → Proper lex (fault assertion)
assertion-Proper = record {
  halts = ground arith;
  moves = λ o l e. ground arith;
  keeps = λ t l e. ground arith;
}

module _ {D : Type 0} (lex : Lex D) (inside : lex.ptr ≤ length lex.content) where
  pub case_slash-Proper : Proper lex (case_slash lex)
  unfolding case_slash
  case_slash-Proper = record {
    halts = ground arith;
    moves = λ o l e. ground arith;
    keeps = λ t l e. ground arith;
  }

  pub case_lt-Proper : Proper lex (case_lt lex)
  unfolding case_lt
  case_lt-Proper = record {
    halts = ground arith;
    moves = λ o l e. ground arith;
    keeps = λ t l e. ground arith;
  }

  pub case_gt-Proper : Proper lex (case_gt lex)
  unfolding case_gt
  case_gt-Proper = record {
    halts = ground arith;
    moves = λ o l e. ground arith;
    keeps = λ t l e. ground arith;
  }

  pub case_equal-Proper : (next : ℕ) → Proper lex (case_equal next lex)
  unfolding case_equal
  case_equal-Proper next = record {
    halts = ground arith;
    moves = λ o l e. ground arith;
    keeps = λ t l e. ground arith;
  }

  pub case_double-Proper : (next : ℕ) → Proper lex (case_double next lex)
  unfolding case_double
  case_double-Proper next = record {
    halts = ground arith;
    moves = λ o l e. ground arith;
    keeps = λ t l e. ground arith;
  }

  pub case_assign-Proper : (next : ℕ) → Proper lex (case_assign next lex)
  unfolding case_assign
  case_assign-Proper next = record {
    halts = ground arith;
    moves = λ o l e. ground arith;
    keeps = λ t l e. ground arith;
  }

  pub case_identifier-Proper : (next : ℕ) → Proper lex (case_identifier next lex)
  unfolding case_identifier append_to_buffer create_buffer
  case_identifier-Proper next = record {
    halts = ground arith;
    moves = λ o l e. ground arith;
    keeps = λ t l e. ground arith;
  }

  module _ (env : Env D) where
    pub case_zero-Proper : Proper lex (case_zero env lex)
    unfolding case_zero
    case_zero-Proper = record {
      halts = ground arith;
      moves = λ o l e. ground arith;
      keeps = λ t l e. ground arith;
    }

    pub case_category-Proper : (next : ℕ) → Proper lex (case_category env next lex)
    unfolding case_category
    case_category-Proper next =
        let id = case_identifier-Proper next in
        record {
          halts = ground (arith, id.halts);
          moves = λ o l e. ground (arith, id.moves o l);
          keeps = λ t l e. ground (arith, id.keeps t l);
        }

    pub case_word-Proper : (next : ℕ) → Proper lex (case_word env next lex)
    unfolding case_word create_buffer
    case_word-Proper next =
        let zero = case_zero-Proper in
        let other = case_category-Proper next in
        record {
          halts = ground (arith, zero.halts, other.halts);
          moves = λ o l e. ground (arith, zero.moves o l, other.moves o l);
          keeps = λ t l e. ground (arith, zero.keeps t l, other.keeps t l);
        }

    pub case_operator-Proper : (next : ℕ) → Proper lex (case_operator env next lex)
    unfolding case_operator
    case_operator-Proper next = either-Proper _ (give-Proper inside next) (
        either-Proper _ case_lt-Proper (
          either-Proper _ case_gt-Proper (
            either-Proper _ (case_equal-Proper next) (
              either-Proper _ (case_double-Proper next)
                (either-Proper _ (case_assign-Proper next) (case_word-Proper next))))))

module _ {D : Type 0} (env : Env D) (lex : Lex D) where
  -- before the end the character is consumed in every case
  pub state_default-Proper :
      lex.ptr < length lex.content → Proper (advance lex) (state_default env lex)
  unfolding state_default
  state_default-Proper room =
      let next = lookahead lex in
      let behind : (advance lex).ptr ≤ length (advance lex).content = ground arith in
      let here : Moved (advance lex) (advance lex) = ground arith in
      either-Proper _ (go_on-Proper here) (
        either-Proper _
          (go_on-Proper
            {l = record (if lookahead (advance lex) == 0xA
              then advance (advance lex)
              else advance lex) { line_before = true }}
            (ground arith))
          (either-Proper _
            (go_on-Proper {l = record (advance lex) { line_before = true }} (ground arith))
            (either-Proper _ (case_slash-Proper (advance lex) behind) (
              either-Proper _ (case_identifier-Proper (advance lex) behind next) (
                either-Proper _ assertion-Proper
                  (case_operator-Proper (advance lex) behind env next))))))

  -- at the end it returns END_OF_FILE and consumes nothing
  pub state_default_at_end :
      lex.ptr ≡ length lex.content
      → state_default env lex ≡ give TokenType.end_of_file (record lex { line_before = true })
  unfolding state_default case_operator case_word
  state_default_at_end e = ground arith
