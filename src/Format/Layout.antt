-- ===== src/Format/Layout.antt =====
-- libs/lib-format/format.c: the text of `itoa`.
use saki_os.Base.{
  ℕ, zero, suc, ◌+◌, ◌^◌, ◌≤◌, ◌<◌, ◌≡◌, ◌∙◌, refl, sym, ap, ℤ, pos, negsuc, Bool, true, false,
  List, [], ◌∷◌, ◌++◌, if◌then◌else◌, ok, length, replicate, ◌⊎◌, ◌≢◌, inl, inr, Bool-cases,
  le_cases, ◌==◌, ==→eq, ◌-◌, length-append, length-replicate, arith,
}
use mathlib.Core.List.{reverse, reverse-cons, reverse-append, append_assoc, append-nil}
use saki_os.Format.{Flags, room, pad}
use saki_os.Format.Itoa.{
  index, itoa, sign_of, prefix_of, magnitude, start_of, reverse_from, digit_loop,
}
use saki_os.Format.Swaps.{reverse_from-append, length-reverse}
use saki_os.Format.Digits.{Numeral, Written, digit_loop-Written, index-no_sign}

-- The number with its sign and prefix; the blanks or zeros between them and the digits, or with LEFT
-- the blanks behind.
abbrev pub laid_out : ℤ → Flags → List ℕ → List ℕ → List ℕ
laid_out width type front text =
    if type.left
    then front ++ text ++ replicate (room width (length (front ++ text))) b' '
    else front
      ++ replicate (room width (length (front ++ text))) (if type.zeropad then b'0' else b' ')
      ++ text

pub pad-replicate : (n c : ℕ) (str : List ℕ) → pad n c str ≡ str ++ replicate n c
unfolding pad
pad-replicate zero c str = sym (append-nil str)
pad-replicate (suc n) c str =
    pad-replicate n c (str ++ (c ∷ [])) ∙ append_assoc str (c ∷ []) (replicate n c)

replicate-append : (n c : ℕ) → replicate n c ++ (c ∷ []) ≡ replicate (suc n) c
replicate-append zero c = refl
replicate-append (suc n) c = ap (λ cs. c ∷ cs) (replicate-append n c)

reverse-replicate : (n c : ℕ) → reverse (replicate n c) ≡ replicate n c
reverse-replicate zero c = refl
reverse-replicate (suc n) c =
    reverse-cons c (replicate n c)
    ∙ ap (λ cs. cs ++ (c ∷ [])) (reverse-replicate n c)
    ∙ replicate-append n c

-- `k` is the length of the sign and the prefix.
start_of_lem :
    (num radix : ℕ) (type : Flags) (d : ℕ) (rest : List ℕ)
    → start_of
        (sign_of num type ++ prefix_of radix type ++ (index (type.small) d ∷ rest))
        radix
        type
      ≡ length (sign_of num type ++ prefix_of radix type)
start_of_lem num radix type d rest = ground (arith, index-no_sign (type.small) d)

room_filled : (width : ℤ) (i : ℕ) → room width (i + room width i) ≡ 0
room_filled (pos width) i = omega arith
room_filled (negsuc n) i = refl

module _ (width : ℤ) (front ds : List ℕ) (h : 1 ≤ length ds) where
  length-written : length (front ++ reverse ds) ≡ length (front ++ ds)
  length-written =
      omega (arith, length-append front (reverse ds), length-append front ds, length-reverse ds)

  flush_left :
      pad
        (room width (length (reverse_from (length front) (front ++ ds))))
        b' '
        (reverse_from (length front) (front ++ ds))
      ≡ front ++ reverse ds ++ replicate (room width (length (front ++ reverse ds))) b' '
  flush_left =
      ap (λ str. pad (room width (length str)) b' ' str) (reverse_from-append front ds h)
      ∙ pad-replicate (room width (length (front ++ reverse ds))) b' ' (front ++ reverse ds)

  -- the digits and the padding behind them, reversed together
  reverse_from-pad :
      (n c : ℕ)
      → reverse_from (length front) (pad n c (front ++ ds)) ≡ front ++ replicate n c ++ reverse ds
  reverse_from-pad n c =
      ap (reverse_from (length front))
        (pad-replicate n c (front ++ ds) ∙ append_assoc front ds (replicate n c))
      ∙ reverse_from-append front (ds ++ replicate n c)
          (omega (arith, length-append ds (replicate n c)))
      ∙ ap (λ t. front ++ t) (reverse-append ds (replicate n c))
      ∙ ap (λ t. front ++ (t ++ reverse ds)) (reverse-replicate n c)
      ∙ sym (append_assoc front (replicate n c) (reverse ds))

  length-filled :
      (c : ℕ)
      → room width
          (length (front ++ replicate (room width (length (front ++ reverse ds))) c ++ reverse ds))
        ≡ 0
  length-filled c =
      ap (room width) (
        omega (
          arith,
          length-append (front ++ replicate (room width (length (front ++ reverse ds))) c)
              (reverse ds),
          length-append front (replicate (room width (length (front ++ reverse ds))) c),
          length-append front (reverse ds),
          length-replicate (room width (length (front ++ reverse ds))) c,
        ))
      ∙ room_filled width (length (front ++ reverse ds))

  flush_right :
      (c : ℕ)
      → pad
          (room width (
            length (
              reverse_from
                (length front)
                (pad (room width (length (front ++ ds))) c (front ++ ds)))))
          b' '
          (reverse_from (length front) (pad (room width (length (front ++ ds))) c (front ++ ds)))
        ≡ front ++ replicate (room width (length (front ++ reverse ds))) c ++ reverse ds
  flush_right c =
      ap (λ str. pad (room width (length str)) b' ' str)
        (reverse_from-pad (room width (length (front ++ ds))) c
          ∙ ap (λ n. front ++ replicate (room width n) c ++ reverse ds) (sym length-written))
      ∙ ap
          (λ n.
            pad n b' '
              (front ++ replicate (room width (length (front ++ reverse ds))) c ++ reverse ds))
          (length-filled c)
      ∙ pad-replicate 0 b' ' _
      ∙ append-nil _

  -- the digits and their padding, before the reversal
  abbrev filled : Bool → ℕ → List ℕ
  filled left c =
      if left then front ++ ds else pad (room width (length (front ++ ds))) c (front ++ ds)

  flush :
      (left : Bool) (c : ℕ)
      → pad
          (room width (length (reverse_from (length front) (filled left c))))
          b' '
          (reverse_from (length front) (filled left c))
        ≡ (if left
            then front ++ reverse ds ++ replicate (room width (length (front ++ reverse ds))) b' '
            else front ++ replicate (room width (length (front ++ reverse ds))) c ++ reverse ds)
  flush true c = flush_left
  flush false c = flush_right c

pub magnitude-lt : (num : ℕ) (type : Flags) → num < 2 ^ 32 → magnitude num type < 2 ^ 32
magnitude-lt num type h = ground arith

laid_out_digits :
    (num radix : ℕ) (width : ℤ) (type : Flags)
    → (ds : List ℕ) × (digit_loop 32 (type.small) radix (magnitude num type) ≡ ok ds)
      × Written (type.small) radix (magnitude num type) ds
    → (text : List ℕ) × Numeral (type.small) radix (magnitude num type) text
      × (itoa num radix width type
          ≡ ok (laid_out width type (sign_of num type ++ prefix_of radix type) text))
unfolding itoa
laid_out_digits num radix width type (ds, run, (d, rest, e, w)) = (
  reverse ds,
  w,
  rw (run) (
      ap (λ k. ok (pad (room width (length (reverse_from k str))) b' ' (reverse_from k str))) starts
      ∙ ap ok (flush width front ds (rw (e) (omega arith)) (type.left) padding)),
)
  where
    front : List ℕ
    front = sign_of num type ++ prefix_of radix type

    padding : ℕ
    padding = if type.zeropad then b'0' else b' '

    str : List ℕ
    str = filled width front ds (rw (e) (omega arith)) (type.left) padding

    starts : start_of (front ++ ds) radix type ≡ length front
    starts = rw (e) (start_of_lem num radix type d rest)

pub itoa-parts :
    (num radix : ℕ) (width : ℤ) (type : Flags)
    → num < 2 ^ 32
    → 2 ≤ radix
    → radix ≤ 36
    → (text : List ℕ) × Numeral (type.small) radix (magnitude num type) text
      × (itoa num radix width type
          ≡ ok (laid_out width type (sign_of num type ++ prefix_of radix type) text))
itoa-parts num radix width type h base table = laid_out_digits num radix width type (
    digit_loop-Written (type.small) radix base table 31 (magnitude num type)
      (magnitude-lt num type h))

-- The sign of a word and its magnitude: with SIGN or PLUS the word is the two's complement of an
-- `int32_t`; PLUS writes a plus before what is not negative.
pub data Signed (num : ℕ) (type : Flags) : List ℕ → ℕ → Type 0 where
  negative :
      (type.sign ≡ true) ⊎ (type.plus ≡ true)
      → 2 ^ 31 ≤ num
      → Signed num type (b'-' ∷ []) (2 ^ 32 - num)
  plus : type.plus ≡ true → num < 2 ^ 31 → Signed num type (b'+' ∷ []) num
  positive : type.plus ≡ false → num < 2 ^ 31 → Signed num type [] num
  bare : type.sign ≡ false → type.plus ≡ false → Signed num type [] num

-- With SPECIAL an octal number starts with 0, a hexadecimal one with 0x or 0X.
pub data Prefixed (radix : ℕ) (type : Flags) : List ℕ → Type 0 where
  no_prefix : type.special ≡ false → Prefixed radix type []
  octal : type.special ≡ true → radix ≡ 8 → Prefixed radix type (b'0' ∷ [])
  small_hex :
      type.special ≡ true → type.small ≡ true → radix ≡ 16 → Prefixed radix type (b'0' ∷ b'x' ∷ [])
  capital_hex :
      type.special ≡ true → type.small ≡ false → radix ≡ 16 → Prefixed radix type (b'0' ∷ b'X' ∷ [])
  other : radix ≢ 8 → radix ≢ 16 → Prefixed radix type []

sign_of-Signed : (num : ℕ) (type : Flags) → Signed num type (sign_of num type) (magnitude num type)
sign_of-Signed num type = elim (le_cases num (2 ^ 31)) [
  | inl low ↦ elim (Bool-cases (type.plus)) [
    | inl p ↦ at (ground (arith, p, low)) (ground (arith, p, low)) (plus p low)
    | inr p ↦ at (ground (arith, p, low)) (ground (arith, p, low)) (positive p low)
  ]
  | inr high ↦ elim (Bool-cases (type.sign)) [
    | inl s ↦ at (ground (arith, s, high)) (ground (arith, s, high)) (negative (inl s) high)
    | inr s ↦ elim (Bool-cases (type.plus)) [
      | inl p ↦ at (ground (arith, p, high)) (ground (arith, p, high)) (negative (inr p) high)
      | inr p ↦ at (ground (arith, s, p)) (ground (arith, s, p)) (bare s p)
    ]
  ]
]
  where
    at :
        {front : List ℕ} {n : ℕ}
        → sign_of num type ≡ front
        → magnitude num type ≡ n
        → Signed num type front n
        → Signed num type (sign_of num type) (magnitude num type)
    at e f x = rw (e, f) x

prefix_of-Prefixed : (radix : ℕ) (type : Flags) → Prefixed radix type (prefix_of radix type)
prefix_of-Prefixed radix type = elim (Bool-cases (type.special)) [
  | inr n ↦ at (ground (arith, n)) (no_prefix n)
  | inl s ↦ elim (Bool-cases (radix == 8)) [
    | inl e ↦ at (ground (arith, s, e)) (octal s (==→eq radix 8 e))
    | inr e ↦ elim (Bool-cases (radix == 16)) [
      | inl h ↦ elim (Bool-cases (type.small)) [
        | inl l ↦ at (ground (arith, s, e, h, l)) (small_hex s l (==→eq radix 16 h))
        | inr l ↦ at (ground (arith, s, e, h, l)) (capital_hex s l (==→eq radix 16 h))
      ]
      | inr h ↦ at (ground (arith, s, e, h)) (other (λ q. never 8 q e) (λ q. never 16 q h))
    ]
  ]
]
  where
    at :
        {front : List ℕ}
        → prefix_of radix type ≡ front
        → Prefixed radix type front
        → Prefixed radix type (prefix_of radix type)
    at e x = rw e x

    never : (k : ℕ) → radix ≡ k → (radix == k) ≡ false → ⊥
    never k e f = ground (arith, e, f)

-- what is missing up to a width
abbrev pub missing : ℤ → ℕ → ℕ
missing (pos width) n = width - n
missing (negsuc _) n = 0

-- The text behind its sign and prefix, with what is missing in front of it, or with LEFT as blanks
-- behind it.
abbrev pub filled_out : ℤ → Flags → List ℕ → List ℕ → List ℕ
filled_out width type front text =
    if type.left
    then front ++ text ++ replicate (missing width (length (front ++ text))) b' '
    else front
      ++ replicate (missing width (length (front ++ text))) (if type.zeropad then b'0' else b' ')
      ++ text

laid_out-filled_out :
    (width : ℤ) (type : Flags) (front text : List ℕ)
    → laid_out width type front text ≡ filled_out width type front text
laid_out-filled_out (pos width) type front text = refl
laid_out-filled_out (negsuc n) type front text = refl

-- For a radix from 2 to 36 `itoa` halts, and writes the sign, the prefix, and the notation of the
-- magnitude in the radix, filled up to the width: in front of the digits, or with LEFT behind them.
pub itoa-laid_out :
    (num radix : ℕ) (width : ℤ) (type : Flags)
    → num < 2 ^ 32
    → 2 ≤ radix
    → radix ≤ 36
    → (sign front text : List ℕ) × (n : ℕ) × Signed num type sign n
      × Prefixed radix type front
      × Numeral (type.small) radix n text
      × (itoa num radix width type ≡ ok (filled_out width type (sign ++ front) text))
itoa-laid_out num radix width type h base table =
    let (text, w, run) = itoa-parts num radix width type h base table in
    (
      sign_of num type,
      prefix_of radix type,
      text,
      magnitude num type,
      sign_of-Signed num type,
      prefix_of-Prefixed radix type,
      w,
      run ∙ ap ok (laid_out-filled_out width type (sign_of num type ++ prefix_of radix type) text),
    )
