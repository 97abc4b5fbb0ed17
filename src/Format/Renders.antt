-- ===== src/Format/Renders.antt =====
-- libs/lib-format/format.c: what `vsprintf` writes for a format, as a relation.
use saki_os.Base.{
  ℕ, zero, suc, ◌%◌, ◌^◌, ◌<◌, ◌≡◌, ◌∙◌, ◌+◌, ◌≤◌, inl, inr, refl, sym, ap, ap₂, negsuc, true,
  false, some, List, [], ◌∷◌, ◌++◌, ◌==◌, ok, length, arith,
}
use mathlib.Core.List.{append_assoc, append-nil}
use saki_os.CString.{Memory, strlen, strlen_loop}
use saki_os.Format.{Flags, no_flags, pad}
use saki_os.Format.Itoa.{itoa, sign_of, magnitude, prefix_of}
use saki_os.Format.Digits.{Numeral, Numeral-unique}
use saki_os.Format.Layout.{Signed, negative, plus, positive, bare, laid_out, itoa-parts}
use saki_os.Format.Vsprintf.{
  read_flags, read_width, read_precision, skip_qualifier, convert, switch, directive, round,
  vsprintf_loop, vsprintf, read_string,
}

-- The conversions that write a number: the character, the radix and the flags
pub data Number : ℕ → ℕ → Flags → Type 0 where
  small_hex : Number b'x' 16 (record no_flags { small = true })
  capital_hex : Number b'X' 16 no_flags
  signed : Number b'd' 10 (record no_flags { sign = true })
  signed_i : Number b'i' 10 (record no_flags { sign = true })
  unsigned : Number b'u' 10 no_flags
  octal : Number b'o' 8 no_flags
  pointer : Number b'p' 16 no_flags

-- the bytes at an address, with a NUL behind them
unfoldable pub StringAt : Memory → ℕ → List ℕ → Type 0
StringAt m p [] = m p ≡ 0
StringAt m p (c ∷ cs) = (m p ≡ c) × ((c == 0) ≡ false) × StringAt m (p + 1) cs

-- `Renders fmt args out`: the format writes `out` with these arguments.
pub data Renders (limit : ℕ) (m : Memory) : List ℕ → List ℕ → List ℕ → Type 0 where
  done : {args : List ℕ} → Renders limit m [] args []
  plain :
      {c : ℕ} {fmt args out : List ℕ}
      → (c == b'%') ≡ false
      → Renders limit m fmt args out
      → Renders limit m (c ∷ fmt) args (c ∷ out)
  percent :
      {fmt args out : List ℕ}
      → Renders limit m fmt args out
      → Renders limit m (b'%' ∷ b'%' ∷ fmt) args (b'%' ∷ out)
  number :
      {c radix arg n : ℕ} {flags : Flags} {fmt args out : List ℕ} {sign text : List ℕ}
      → Number c radix flags
      → Signed (arg % 2 ^ 32) flags sign n
      → Numeral (flags.small) radix n text
      → Renders limit m fmt args out
      → Renders limit m (b'%' ∷ c ∷ fmt) (arg ∷ args) ((sign ++ text) ++ out)
  character :
      {arg : ℕ} {fmt args out : List ℕ}
      → Renders limit m fmt args out
      → Renders limit m (b'%' ∷ b'c' ∷ fmt) (arg ∷ args) (arg % 2 ^ 8 ∷ out)
  string :
      {arg : ℕ} {fmt args out : List ℕ} (text : List ℕ)
      → StringAt m (arg % 2 ^ 32) text
      → length text < limit
      → Renders limit m fmt args out
      → Renders limit m (b'%' ∷ b's' ∷ fmt) (arg ∷ args) (text ++ out)

Signed-parts :
    {num n : ℕ} {type : Flags} {sign : List ℕ}
    → Signed num type sign n
    → num < 2 ^ 32
    → (sign_of num type ≡ sign) × (magnitude num type ≡ n)
Signed-parts (negative (inl s) h) k = (ground (arith, s, h), ground (arith, s, h))
Signed-parts (negative (inr p) h) k = (ground (arith, p, h), ground (arith, p, h))
Signed-parts (plus p h) k = (ground (arith, p, h), ground (arith, p, h))
Signed-parts (positive p h) k = (ground (arith, p, h), ground (arith, p, h))
Signed-parts (bare s p) k = (ground (arith, s, p), ground (arith, s, p))

Number-plain :
    {c radix : ℕ} {flags : Flags}
    → Number c radix flags
    → (2 ≤ radix) × (radix ≤ 36) × (flags.left ≡ false) × (prefix_of radix flags ≡ [])
Number-plain small_hex = (omega arith, omega arith, refl, refl)
Number-plain capital_hex = (omega arith, omega arith, refl, refl)
Number-plain signed = (omega arith, omega arith, refl, refl)
Number-plain signed_i = (omega arith, omega arith, refl, refl)
Number-plain unsigned = (omega arith, omega arith, refl, refl)
Number-plain octal = (omega arith, omega arith, refl, refl)
Number-plain pointer = (omega arith, omega arith, refl, refl)

unfilled :
    (flags : Flags) (front text : List ℕ)
    → flags.left ≡ false
    → laid_out (negsuc 0) flags front text ≡ front ++ text
unfilled flags front text e = rw e (ap (λ t. t ++ text) (append-nil front))

itoa-Number :
    {c radix n : ℕ} {flags : Flags} {sign text : List ℕ} (arg : ℕ)
    → Number c radix flags
    → Signed (arg % 2 ^ 32) flags sign n
    → Numeral (flags.small) radix n text
    → itoa (arg % 2 ^ 32) radix (negsuc 0) flags ≡ ok (sign ++ text)
itoa-Number {radix} {flags} {sign} {text} arg kind s w =
    let (low, high, left, none_before) = Number-plain kind in
    let (e, f) = Signed-parts s (omega arith) in
    let (text', w', run) =
      itoa-parts (arg % 2 ^ 32) radix (negsuc 0) flags (omega arith) low high in
    run
    ∙ ap ok (
        unfilled flags (sign_of (arg % 2 ^ 32) flags ++ prefix_of radix flags) text' left
        ∙ ap₂ (λ (a b : List ℕ). a ++ b)
            (ap₂ (λ (a b : List ℕ). a ++ b) e none_before ∙ append-nil sign)
            (Numeral-unique f w' w))

strlen_loop-StringAt :
    (fuel : ℕ) (m : Memory) (p n : ℕ) (text : List ℕ)
    → StringAt m p text
    → length text < fuel
    → strlen_loop fuel m p n ≡ some (n + length text)
unfolding strlen_loop StringAt
strlen_loop-StringAt zero m p n text e h = absurd (omega arith)
strlen_loop-StringAt (suc fuel) m p n [] e h = rw e (ap some (omega arith))
strlen_loop-StringAt (suc fuel) m p n (c ∷ cs) (e, f, t) h =
    rw (e, f)
      (strlen_loop-StringAt fuel m (p + 1) (n + 1) cs t (omega arith) ∙ ap some (omega arith))

read_string-StringAt :
    (m : Memory) (p : ℕ) (text : List ℕ) → StringAt m p text → read_string m p (length text) ≡ text
unfolding read_string StringAt
read_string-StringAt m p [] e = refl
read_string-StringAt m p (c ∷ cs) (e, f, t) =
    ap₂ (λ (a : ℕ) (l : List ℕ). a ∷ l) e (read_string-StringAt m (p + 1) cs t)

module _ (limit : ℕ) (m : Memory) where
  round-Number :
      {c radix : ℕ} {flags : Flags} {text : List ℕ} (arg : ℕ) (fmt args : List ℕ)
      → Number c radix flags
      → itoa (arg % 2 ^ 32) radix (negsuc 0) flags ≡ ok text
      → round limit m b'%' (c ∷ fmt) (arg ∷ args) ≡ ok (text, (fmt, args))
  unfolding round directive read_flags read_width read_precision skip_qualifier switch convert
  round-Number arg fmt args small_hex e = rw (e) refl
  round-Number arg fmt args capital_hex e = rw (e) refl
  round-Number arg fmt args signed e = rw (e) refl
  round-Number arg fmt args signed_i e = rw (e) refl
  round-Number arg fmt args unsigned e = rw (e) refl
  round-Number arg fmt args octal e = rw (e) refl
  round-Number arg fmt args pointer e = rw (e) refl

  round-string :
      {text : List ℕ} (arg : ℕ) (fmt args : List ℕ)
      → StringAt m (arg % 2 ^ 32) text
      → length text < limit
      → round limit m b'%' (b's' ∷ fmt) (arg ∷ args) ≡ ok (text, (fmt, args))
  unfolding round directive read_flags read_width read_precision skip_qualifier switch convert pad
      strlen
  round-string {text} arg fmt args e h =
      rw (strlen_loop-StringAt limit m (arg % 2 ^ 32) 0 text e h) (
        ap (λ (t : List ℕ). ok (t, (fmt, args)))
          (ap (λ n. read_string m (arg % 2 ^ 32) n) {x = 0 + length text} {y = length text}
              (omega arith)
            ∙ read_string-StringAt m (arg % 2 ^ 32) text e))

  round-character :
      (arg : ℕ) (fmt args : List ℕ)
      → round limit m b'%' (b'c' ∷ fmt) (arg ∷ args) ≡ ok (arg % 2 ^ 8 ∷ [], (fmt, args))
  unfolding round directive read_flags read_width read_precision skip_qualifier switch convert pad
  round-character arg fmt args = ap (λ (c : ℕ). ok (c ∷ [], (fmt, args))) (omega arith)

  round-percent :
      (fmt args : List ℕ) → round limit m b'%' (b'%' ∷ fmt) args ≡ ok (b'%' ∷ [], (fmt, args))
  unfolding round directive read_flags read_width read_precision skip_qualifier switch convert
  round-percent fmt args = refl

  round-plain :
      (c : ℕ) (fmt args : List ℕ)
      → (c == b'%') ≡ false
      → round limit m c fmt args ≡ ok (c ∷ [], (fmt, args))
  unfolding round
  round-plain c fmt args n = rw (n) refl

  -- one round, and the rest of the format
  then_rest :
      (fuel c : ℕ) (fmt args : List ℕ) {fmt' args' text : List ℕ} (out acc : List ℕ)
      → round limit m c fmt args ≡ ok (text, (fmt', args'))
      → vsprintf_loop fuel limit m fmt' args' (acc ++ text) ≡ ok (acc ++ text ++ out)
      → vsprintf_loop (suc fuel) limit m (c ∷ fmt) args acc ≡ ok (acc ++ (text ++ out))
  unfolding vsprintf_loop
  then_rest fuel c fmt args {text = text} out acc e h =
      rw (e) (h ∙ ap ok (append_assoc acc text out))

  vsprintf_loop-Renders :
      (fuel : ℕ) {fmt args out : List ℕ} (acc : List ℕ)
      → Renders limit m fmt args out
      → length fmt < fuel
      → vsprintf_loop fuel limit m fmt args acc ≡ ok (acc ++ out)
  unfolding vsprintf_loop
  vsprintf_loop-Renders zero acc r h = absurd (omega arith)
  vsprintf_loop-Renders (suc fuel) acc done h = ap ok (sym (append-nil acc))
  vsprintf_loop-Renders (suc fuel) acc (plain {c} {fmt} {args} {out} n r) h =
      then_rest fuel c fmt args out acc (round-plain c fmt args n)
        (vsprintf_loop-Renders fuel (acc ++ (c ∷ [])) r (omega arith))
  vsprintf_loop-Renders (suc fuel) acc (percent {fmt} {args} {out} r) h =
      then_rest fuel b'%' (b'%' ∷ fmt) args out acc (round-percent fmt args)
        (vsprintf_loop-Renders fuel (acc ++ (b'%' ∷ [])) r (omega arith))
  vsprintf_loop-Renders (suc fuel) acc (number {arg} {fmt} {args} {out} {sign} {text} n s w r) h =
      then_rest fuel b'%' _ _ out acc (round-Number arg fmt args n (itoa-Number arg n s w))
        (vsprintf_loop-Renders fuel (acc ++ (sign ++ text)) r (omega arith))
  vsprintf_loop-Renders (suc fuel) acc (character {arg} {fmt} {args} {out} r) h =
      then_rest fuel b'%' _ _ out acc (round-character arg fmt args)
        (vsprintf_loop-Renders fuel (acc ++ (arg % 2 ^ 8 ∷ [])) r (omega arith))
  vsprintf_loop-Renders (suc fuel) acc (string {arg} {fmt} {args} {out} text e short r) h =
      then_rest fuel b'%' _ _ out acc (round-string arg fmt args e short)
        (vsprintf_loop-Renders fuel (acc ++ text) r (omega arith))

-- `vsprintf` writes what the format stands for: its characters as they are, and for each conversion
-- without flags, width and precision the sign and the notation of its argument, its low byte, or the
-- bytes in front of the NUL at its address, which are fewer than the fuel of `strlen`.
pub vsprintf-Renders :
    (limit : ℕ) (m : Memory) (fmt args out : List ℕ)
    → Renders limit m fmt args out
    → vsprintf limit m fmt args ≡ ok out
unfolding vsprintf
vsprintf-Renders limit m fmt args out r =
    vsprintf_loop-Renders limit m (suc (length fmt)) [] r (omega arith)
