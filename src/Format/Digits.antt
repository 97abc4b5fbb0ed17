-- ===== src/Format/Digits.antt =====
-- libs/lib-format/format.c: the digits that `itoa` produces, last one first.
use saki_os.Base.{
  ℕ, zero, suc, ◌+◌, ◌*◌, ◌/◌, ◌%◌, ◌^◌, ◌≤◌, ◌<◌, ◌≡◌, refl, sym, ap, ap₂, subst, ◌∙◌, Bool, true,
  false, not, ◌&&◌, List, [], ◌∷◌, ◌++◌, ◌==◌, ok, get_or, ltb, if◌then◌else◌, ◌-◌, arith,
  Bool-cases, inl, inr, ==→eq,
}
use saki_os.Base.Bits.{every_below, every_below_at}
use mathlib.Core.List.{reverse, reverse-cons}
use native.Mathlib.Nat.{
  div-add-mod', div-eq_of_lt, mod-lt, add-mul-div_right, mul-le-mul_left, pow-suc,
}
use saki_os.Format.Itoa.{index, decimals, small_letters, capitals, digit_loop}

-- A digit of a notation: from 10 on the letters, small or capital, in the order of their codes.
abbrev pub digit_of : Bool → ℕ → ℕ
digit_of small d = if ltb d 10 then b'0' + d else (if small then b'a' else b'A') + (d - 10)

-- The table has the digits of every radix up to 36.
pub index-digit_of : (small : Bool) (d : ℕ) → d < 36 → index small d ≡ digit_of small d
unfolding index
index-digit_of true d h = ==→eq _ _ (
    every_below_at 36 (λ i. get_or (decimals ++ small_letters) i 0 == digit_of true i) d
      (unfold every_below in refl) h)
index-digit_of false d h = ==→eq _ _ (
    every_below_at 36 (λ i. get_or (decimals ++ capitals) i 0 == digit_of false i) d
      (unfold every_below in refl) h)

-- The notation of a number in a radix, without leading zeros.
pub data Numeral (small : Bool) (radix : ℕ) : ℕ → List ℕ → Type 0 where
  digit : {d : ℕ} → d < radix → Numeral small radix d (digit_of small d ∷ [])
  append :
      {n d : ℕ} {text : List ℕ}
      → 1 ≤ n
      → Numeral small radix n text
      → d < radix
      → Numeral small radix (n * radix + d) (text ++ (digit_of small d ∷ []))

abbrev pub no_sign : ℕ → Bool
no_sign c = not (c == b'-') && not (c == b'+')

abbrev all_unsigned : List ℕ → Bool
all_unsigned [] = true
all_unsigned (c ∷ cs) = no_sign c && all_unsigned cs

get_or-all_unsigned :
    (cs : List ℕ) (i : ℕ) → all_unsigned cs ≡ true → no_sign (get_or cs i 0) ≡ true
get_or-all_unsigned [] i h = refl
get_or-all_unsigned (c ∷ cs) zero h = ground arith
get_or-all_unsigned (c ∷ cs) (suc i) h = get_or-all_unsigned cs i (ground arith)

pub index-no_sign : (small : Bool) (d : ℕ) → no_sign (index small d) ≡ true
unfolding index
index-no_sign true d = get_or-all_unsigned (decimals ++ small_letters) d refl
index-no_sign false d = get_or-all_unsigned (decimals ++ capitals) d refl

module _ (small : Bool) (radix : ℕ) where
  -- What the loop leaves: at least one digit, and the notation in reverse.
  abbrev pub Written : ℕ → List ℕ → Type 0
  Written u ds =
      (d : ℕ) × (rest : List ℕ) × (ds ≡ index small d ∷ rest) × Numeral small radix u (reverse ds)

module _ (small : Bool) (radix : ℕ) (h : 2 ≤ radix) (table : radix ≤ 36) where
  -- a digit that the loop takes from the table
  taken : (u : ℕ) → index small (u % radix) ≡ digit_of small (u % radix)
  taken u =
      index-digit_of small (u % radix) (omega (arith, mod-lt u {m = radix} (omega arith), table))

  one_digit : (u : ℕ) → u / radix ≡ 0 → Written small radix u (index small (u % radix) ∷ [])
  one_digit u e = (
    u % radix,
    [],
    refl,
    subst (λ n. Numeral small radix n (index small (u % radix) ∷ [])) all_of_it
        (subst (λ c. Numeral small radix (u % radix) (c ∷ [])) (sym (taken u))
          (digit (mod-lt u (omega arith)))),
  )
    where
      all_of_it : u % radix ≡ u
      all_of_it = omega (arith, div-add-mod' u radix, ap (λ q. q * radix) e)

  more_digits :
      (u : ℕ) (ds : List ℕ)
      → 1 ≤ u / radix
      → Written small radix (u / radix) ds
      → Written small radix u (index small (u % radix) ∷ ds)
  more_digits u ds k (d, rest, e, w) = (
    u % radix,
    ds,
    refl,
    subst (λ t. Numeral small radix u t) (sym (reverse-cons (index small (u % radix)) ds))
        (subst (λ n. Numeral small radix n (reverse ds ++ (index small (u % radix) ∷ [])))
          (div-add-mod' u radix)
          (subst (λ c. Numeral small radix (u / radix * radix + u % radix) (reverse ds ++ (c ∷ [])))
            (sym (taken u)) (append k w (mod-lt u (omega arith))))),
  )

  div-lt-pow : (u k : ℕ) → u < 2 ^ suc k → u / radix < 2 ^ k
  div-lt-pow u k p = omega (arith, pow-suc 2 k, mul-le-mul_left (u / radix) h, div-add-mod' u radix)

  last_digit :
      (fuel u : ℕ)
      → u / radix ≡ 0
      → (ds : List ℕ) × (digit_loop (suc fuel) small radix u ≡ ok ds) × Written small radix u ds
  unfolding digit_loop
  last_digit fuel u e = (index small (u % radix) ∷ [], rw (e) refl, one_digit u e)

  digit_before :
      (fuel u : ℕ)
      → (u / radix == 0) ≡ false
      → (ds : List ℕ) × (digit_loop fuel small radix (u / radix) ≡ ok ds)
        × Written small radix (u / radix) ds
      → (ds : List ℕ) × (digit_loop (suc fuel) small radix u ≡ ok ds) × Written small radix u ds
  unfolding digit_loop
  digit_before fuel u e (ds, run, w) =
      (index small (u % radix) ∷ ds, rw (e, run) refl, more_digits u ds (ground arith) w)

  pub digit_loop-Written :
      (fuel u : ℕ)
      → u < 2 ^ suc fuel
      → (ds : List ℕ) × (digit_loop (suc fuel) small radix u ≡ ok ds) × Written small radix u ds
  digit_loop-Written zero u k = last_digit zero u (div-eq_of_lt (omega arith))
  digit_loop-Written (suc fuel) u k = elim (Bool-cases (u / radix == 0)) [
    | inl e ↦ last_digit (suc fuel) u (==→eq (u / radix) 0 e)
    | inr e ↦
        digit_before (suc fuel) u e
          (digit_loop-Written fuel (u / radix) (div-lt-pow u (suc fuel) k))
  ]

-- A number has one notation.
quotient : (radix n d : ℕ) → d < radix → (n * radix + d) / radix ≡ n
quotient radix n d h =
    ap (λ t. t / radix) {x = n * radix + d} {y = d + n * radix} (omega arith)
    ∙ add-mul-div_right d n {z = radix} (omega (arith, h))
    ∙ omega (arith, div-eq_of_lt h)

same_parts :
    (radix n d n' d' : ℕ)
    → d < radix
    → d' < radix
    → n * radix + d ≡ n' * radix + d'
    → (n ≡ n') × (d ≡ d')
same_parts radix n d n' d' h k e =
    let q = sym (quotient radix n d h) ∙ ap (λ t. t / radix) e ∙ quotient radix n' d' k in
    (q, omega (arith, e, ap (λ t. t * radix) q))

pub Numeral-unique :
    {small : Bool} {radix m m' : ℕ} {text text' : List ℕ}
    → m ≡ m'
    → Numeral small radix m text
    → Numeral small radix m' text'
    → text ≡ text'
Numeral-unique {small} e (digit h) (digit k) = ap (λ c. digit_of small c ∷ []) e
Numeral-unique {small} {radix} e (digit {d} h) (append {n} {d = d'} le w k) =
    absurd (ground (arith, (same_parts radix 0 d n d' h k (omega (arith, e))).0, le))
Numeral-unique {small} {radix} e (append {n} {d} le w h) (digit {d = d'} k) =
    absurd (ground (arith, (same_parts radix n d 0 d' h k (omega (arith, e))).0, le))
Numeral-unique {small} {radix} e (append {n} {d} le w h) (append {n = n'} {d = d'} le' w' k) =
    let (q, r) = same_parts radix n d n' d' h k e in
    ap₂ (λ (t : List ℕ) (c : ℕ). t ++ (digit_of small c ∷ [])) (Numeral-unique q w w') r
