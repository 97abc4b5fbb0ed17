-- ===== src/Format/Rests.antt =====
-- libs/lib-format/format.c: what `vsprintf` reads of a directive leaves no longer a format.
use saki_os.Base.{
  ℕ, suc, ◌+◌, ◌-◌, ◌*◌, ◌^◌, ◌≤◌, ◌<◌, ◌≡◌, refl, ℤ, pos, Bool, true, false, none, some, List, [],
  ◌∷◌, ◌==◌, if◌then◌else◌, ok, length, arith,
}
use saki_os.Base.Ensures.{Ensures, holds, failed, Ensures-bind, Ensures-map}
use saki_os.Format.{Flags}
use saki_os.Format.Vsprintf.{
  Remaining, is_digit, set_flag, read_flags, read_digits, va_arg, read_width, read_after_point,
  read_precision, skip_qualifier,
}

-- The format left has at most `n` characters.
abbrev pub Within : (A : Type 0) → ℕ → A × Remaining → Type 0
Within A n (_, (fmt, _)) = length fmt ≤ n

abbrev pub Any : {A : Type 0} → A → Type 0
Any a = Unit {0}

abbrev pub Rest : {A : Type 0} → ℕ → A × List ℕ → Type 0
Rest n (_, fmt) = length fmt ≤ n

abbrev pub Word : ℕ × List ℕ → Type 0
Word (arg, _) = arg < 2 ^ 32

pub either : {A : Type 0} (P : A → Type 0) (b : Bool) {x y : A} → P x → P y → P (if b then x else y)
either P true p q = p
either P false p q = q

pub by_cases :
    {A : Type 0} (P : A → Type 0) (b : Bool) {x y : A}
    → (b ≡ true → P x)
    → (b ≡ false → P y)
    → P (if b then x else y)
by_cases P true p q = p refl
by_cases P false p q = q refl

Rest-suc : {A : Type 0} (n : ℕ) (r : A × List ℕ) → Rest n r → Rest (suc n) r
Rest-suc n (a, fmt) h = omega arith

pub read_flags-Rest : (fmt : List ℕ) (flags : Flags) → Rest (length fmt) (read_flags fmt flags)
unfolding read_flags
read_flags-Rest [] flags = omega arith
read_flags-Rest (c ∷ fmt) flags =
    elim (set_flag c flags)
      as (λ o. Rest {A = Flags} (suc (length fmt)) (elim o as (λ _. Flags × List ℕ) [
        | none ↦ (flags, c ∷ fmt)
        | some flags ↦ read_flags fmt flags
      ])) [
        | none ↦ omega arith
        | some flags' ↦ Rest-suc (length fmt) (read_flags fmt flags') (read_flags-Rest fmt flags')
      ]

read_digits-Rest : (fmt : List ℕ) (width : ℕ) → Rest (length fmt) (read_digits fmt width)
unfolding read_digits
read_digits-Rest [] width = omega arith
read_digits-Rest (c ∷ fmt) width =
    either (Rest (suc (length fmt))) (is_digit c)
      (Rest-suc (length fmt) (read_digits fmt (width * 10 + (c - b'0')))
        (read_digits-Rest fmt (width * 10 + (c - b'0'))))
      (omega arith)

pub skip_qualifier-shorter : (fmt : List ℕ) → length (skip_qualifier fmt) ≤ length fmt
unfolding skip_qualifier
skip_qualifier-shorter [] = omega arith
skip_qualifier-shorter (c ∷ fmt) = ground arith

pub va_arg-Word : (args : List ℕ) → Ensures Word (va_arg args)
va_arg-Word [] = failed (ground arith)
va_arg-Word (arg ∷ args) = holds (omega arith)

width_digits :
    (n : ℕ) (flags : Flags) (args : List ℕ) (r : ℕ × List ℕ)
    → Rest n r
    → Ensures (Within (Flags × ℤ) n) (let (width, fmt) = r in ok ((flags, pos width), (fmt, args)))
width_digits n flags args (width, fmt) h = holds h

pub read_width-Within :
    (flags : Flags) (fmt args : List ℕ)
    → Ensures (Within (Flags × ℤ) (length fmt)) (read_width flags fmt args)
unfolding read_width
read_width-Within flags [] args = holds (omega arith)
read_width-Within flags (c ∷ fmt) args =
    either (Ensures (Within (Flags × ℤ) (suc (length fmt)))) (is_digit c)
      (width_digits (suc (length fmt)) flags args (read_digits fmt (c - b'0'))
        (Rest-suc (length fmt) (read_digits fmt (c - b'0')) (read_digits-Rest fmt (c - b'0'))))
      (either (Ensures (Within (Flags × ℤ) (suc (length fmt)))) (c == b'*')
        (Ensures-bind (va_arg-Word args) (λ (arg, args) w. holds (omega arith)))
        (holds (omega arith)))

read_after_point-Within :
    (fmt args : List ℕ) → Ensures (Within ℤ (length fmt)) (read_after_point fmt args)
unfolding read_after_point
read_after_point-Within [] args = holds (omega arith)
read_after_point-Within (c ∷ fmt) args =
    either (Ensures (Within ℤ (suc (length fmt)))) (is_digit c) (holds (omega arith)) (
      either (Ensures (Within ℤ (suc (length fmt)))) (c == b'*')
        (Ensures-bind (va_arg-Word args) (λ (arg, args) w. holds (omega arith)))
        (holds (omega arith)))

pub read_precision-Within :
    (fmt args : List ℕ) → Ensures (Within ℤ (length fmt)) (read_precision fmt args)
unfolding read_precision
read_precision-Within [] args = holds (omega arith)
read_precision-Within (c ∷ fmt) args =
    either (Ensures (Within ℤ (suc (length fmt)))) (c == b'.')
      (Ensures-map (read_after_point-Within fmt args) (λ (p, (fmt, args)) h. omega arith))
      (holds (omega arith))
