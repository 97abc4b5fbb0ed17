-- ===== src/Format/RoundTrip.antt =====
-- libs/lib-format/format.c: `atoi` reads back what `itoa` writes in radix 10.
use saki_os.Base.{
  ℕ, zero, suc, ◌+◌, ◌*◌, ◌%◌, ◌^◌, ◌<◌, ◌≡◌, ◌∙◌, refl, sym, ap, ℤ, pos, negsuc, is_neg, Bool,
  true, false, ◌||◌, List, [], ◌∷◌, ◌++◌, if◌then◌else◌, ok, length, get_or, replicate, arith,
}
use mathlib.Core.List.{append_assoc, append-nil}
use saki_os.Format.{Flags, room}
use saki_os.Format.Itoa.{itoa, atoi, atoi_loop, sign_of, prefix_of, magnitude}
use saki_os.Format.Digits.{Numeral, digit, append, no_sign, digit_of}
use saki_os.Format.Layout.{laid_out, itoa-parts, magnitude-lt}

digit_decimal : (small : Bool) (d : ℕ) → d < 10 → digit_of small d ≡ b'0' + d
digit_decimal small d h = ground (arith, h)

digit-no_sign : (small : Bool) (d : ℕ) → d < 10 → no_sign (digit_of small d) ≡ true
digit-no_sign small d h = ground (arith, h)

atoi_loop-digit :
    (small : Bool) (d : ℕ) (p : List ℕ) (res : ℕ)
    → d < 10
    → atoi_loop (digit_of small d ∷ p) res ≡ atoi_loop p ((res * 10 + d) % 2 ^ 32)
unfolding atoi_loop
atoi_loop-digit small d p res h = rw (digit_decimal small d h) (ground arith)

-- A numeral is read to its value.
atoi_loop-append :
    {small : Bool} {n : ℕ} {text : List ℕ} (p : List ℕ)
    → Numeral small 10 n text
    → atoi_loop (text ++ p) 0 ≡ atoi_loop p (n % 2 ^ 32)
atoi_loop-append {small} p (digit {d} h) =
    atoi_loop-digit small d p 0 h ∙ ap (λ k. atoi_loop p (k % 2 ^ 32)) (omega arith)
atoi_loop-append {small} p (append {n} {d} {text} k w h) =
    ap (λ t. atoi_loop t 0) (append_assoc text (digit_of small d ∷ []) p)
    ∙ atoi_loop-append (digit_of small d ∷ p) w
    ∙ atoi_loop-digit small d p (n % 2 ^ 32) h
    ∙ ap (atoi_loop p) (omega arith)

atoi_loop_blanks : (k res : ℕ) → atoi_loop (replicate k b' ') res ≡ res
unfolding atoi_loop
atoi_loop_blanks zero res = refl
atoi_loop_blanks (suc k) res = refl

atoi_loop_zeros : (k : ℕ) (p : List ℕ) → atoi_loop (replicate k b'0' ++ p) 0 ≡ atoi_loop p 0
unfolding atoi_loop
atoi_loop_zeros zero p = refl
atoi_loop_zeros (suc k) p = atoi_loop_zeros k p

head-no_sign :
    {small : Bool} {n : ℕ} {text : List ℕ} (p : List ℕ)
    → Numeral small 10 n text
    → no_sign (get_or (text ++ p) 0 0) ≡ true
head-no_sign {small} p (digit {d} h) = digit-no_sign small d h
head-no_sign {small} p (append {n} {d} {text} k w h) =
    ap (λ t. no_sign (get_or t 0 0)) (append_assoc text (digit_of small d ∷ []) p)
    ∙ head-no_sign (digit_of small d ∷ p) w

-- zeros, a numeral and blanks
abbrev body : ℕ → List ℕ → ℕ → List ℕ
body leading text blanks = replicate leading b'0' ++ (text ++ replicate blanks b' ')

atoi_loop-body :
    {small : Bool} {n : ℕ} {text : List ℕ} (leading blanks : ℕ)
    → Numeral small 10 n text
    → n < 2 ^ 32
    → atoi_loop (body leading text blanks) 0 ≡ n
atoi_loop-body {n} {text} leading blanks w h =
    atoi_loop_zeros leading (text ++ replicate blanks b' ')
    ∙ atoi_loop-append (replicate blanks b' ') w
    ∙ atoi_loop_blanks blanks (n % 2 ^ 32)
    ∙ omega arith

body-no_sign :
    {small : Bool} {n : ℕ} {text : List ℕ} (leading blanks : ℕ)
    → Numeral small 10 n text
    → no_sign (get_or (body leading text blanks) 0 0) ≡ true
body-no_sign zero blanks w = head-no_sign (replicate blanks b' ') w
body-no_sign (suc leading) blanks w = refl

atoi_unsigned : (str : List ℕ) → no_sign (get_or str 0 0) ≡ true → atoi str ≡ atoi_loop str 0
unfolding atoi atoi_loop
atoi_unsigned [] h = refl
atoi_unsigned (c ∷ p) h = ground arith

-- Without blanks in front of the digits, the layout is the sign, zeros, the digits and blanks.
spread :
    (left zeropad : Bool) (width : ℤ) (n : ℕ) (front text : List ℕ)
    → (left || zeropad || is_neg width) ≡ true
    → (leading : ℕ) × (blanks : ℕ) × ((if left
          then front ++ text ++ replicate (room width n) b' '
          else front ++ replicate (room width n) (if zeropad then b'0' else b' ') ++ text)
        ≡ front ++ body leading text blanks)
spread true zeropad width n front text h =
    (0, room width n, append_assoc front text (replicate (room width n) b' '))
spread false true width n front text h = (
  room width n,
  0,
  append_assoc front (replicate (room width n) b'0') text
      ∙ ap (λ t. front ++ (replicate (room width n) b'0' ++ t)) (sym (append-nil text)),
)
spread false false (pos width) n front text h = absurd (ground arith)
spread false false (negsuc width) n front text h =
    (0, 0, append_assoc front [] text ∙ ap (λ t. front ++ t) (sym (append-nil text)))

atoi-front :
    (num : ℕ) (type : Flags) (str : List ℕ)
    → num < 2 ^ 32
    → no_sign (get_or str 0 0) ≡ true
    → atoi_loop str 0 ≡ magnitude num type
    → atoi (sign_of num type ++ prefix_of 10 type ++ str) ≡ num
unfolding atoi
atoi-front num type str h k e = ground (arith, atoi_unsigned str k)

-- `atoi` returns the number that `itoa` wrote in radix 10, with any flags, where no blanks stand
-- between the sign and the digits: with LEFT or ZEROPAD, or without a width.
pub itoa-atoi :
    (num : ℕ) (width : ℤ) (type : Flags)
    → num < 2 ^ 32
    → (type.left || type.zeropad || is_neg width) ≡ true
    → (text : List ℕ) × (itoa num 10 width type ≡ ok text) × (atoi text ≡ num)
itoa-atoi num width type h close =
    let (text, w, run) = itoa-parts num 10 width type h (ground arith) (ground arith) in
    let front = sign_of num type ++ prefix_of 10 type in
    let (leading, blanks, e) =
      spread (type.left) (type.zeropad) width (length (front ++ text)) front text close in
    (
      laid_out width type front text,
      run,
      ap atoi e
          ∙ atoi-front num type (body leading text blanks) h (body-no_sign leading blanks w)
              (atoi_loop-body leading blanks w (magnitude-lt num type h)),
    )
