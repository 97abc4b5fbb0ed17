-- ===== src/Format/Halts.antt =====
-- libs/lib-format/format.c: the loop of `vsprintf` ends.
use saki_os.Base.{
  ℕ, zero, suc, ◌+◌, ◌≤◌, ◌<◌, ◌≡◌, ◌≢◌, refl, ℤ, pos, negsuc, true, ◌||◌, Option, none, some, List,
  [], ◌∷◌, ◌++◌, ◌==◌, ltb, Result, ok, fault, out_of_fuel, ◌>>=◌, length, arith,
}
use saki_os.Base.Ensures.{Ensures, holds, failed, Ensures-bind, Ensures-map, Ensures-halts}
use saki_os.CString.{Memory, strlen, strnlen, strlen_loop, strnlen_loop}
use saki_os.Format.{Flags, no_flags}
use saki_os.Format.Layout.{itoa-parts}
use saki_os.Format.Vsprintf.{
  Remaining, read_flags, read_width, read_precision, skip_qualifier, string_length, length_or_fault,
  number, convert, converted, switch, directive, round, vsprintf_loop, vsprintf,
}
use saki_os.Format.Rests.{
  Within, Any, Rest, either, by_cases, read_flags-Rest, skip_qualifier-shorter, va_arg-Word,
  read_width-Within, read_precision-Within,
}

-- Every string ends within the fuel of `strlen`.
abbrev pub AllTerminated : ℕ → Memory → Type 0
AllTerminated limit m = (str : ℕ) → (len : ℕ) × (strlen limit m str ≡ some len)

number-halts :
    (radix : ℕ) (width : ℤ) (flags : Flags) (args : List ℕ)
    → 2 ≤ radix
    → radix ≤ 36
    → Ensures Any (number radix width flags args)
number-halts radix width flags args h k = Ensures-bind (va_arg-Word args) (λ (arg, args) w.
    let (text, _, run) = itoa-parts arg radix width flags w h k in rw (run) (holds tt))

strnlen_loop-halts :
    (fuel : ℕ) (m : Memory) (str maxlen c c' n : ℕ)
    → strlen_loop fuel m str c ≡ some n
    → (len : ℕ) × (strnlen_loop fuel m str maxlen c' ≡ some len)
unfolding strlen_loop strnlen_loop
strnlen_loop-halts zero m str maxlen c c' n e = absurd (ground arith)
strnlen_loop-halts (suc fuel) m str maxlen c c' n e =
    by_cases (λ o. (len : ℕ) × (o ≡ some len)) (m str == 0) (λ _. (c', refl))
      (λ nul.
        either (λ o. (len : ℕ) × (o ≡ some len)) (ltb c' maxlen)
          (strnlen_loop-halts fuel m (str + 1) maxlen (c + 1) (c' + 1) n (ground (arith, e, nul)))
          (c', refl))

string_length-halts :
    (limit : ℕ) (m : Memory) (precision : ℤ) (str : ℕ)
    → AllTerminated limit m
    → Ensures Any (length_or_fault (string_length limit m precision str))
unfolding strlen strnlen
string_length-halts limit m (pos precision) str t =
    let (n, e) = t str in
    let (len, r) = strnlen_loop-halts limit m str precision 0 0 n e in rw (r) (holds tt)
string_length-halts limit m (negsuc _) str t = let (n, e) = t str in rw (e) (holds tt)

convert-halts :
    (limit : ℕ) (m : Memory) (c : ℕ) (flags : Flags) (width precision : ℤ) (args : List ℕ)
    → AllTerminated limit m
    → Ensures Any (convert limit m c flags width precision args)
unfolding convert
convert-halts limit m c flags width precision args t =
    either E (c == b'x') (text 16 (record flags { small = true }) (ground arith) (ground arith)) (
      either E (c == b'X') (text 16 flags (ground arith) (ground arith)) (
        either E (c == b'd' || c == b'i')
          (text 10 (record flags { sign = true }) (ground arith) (ground arith))
          (either E (c == b'u') (text 10 flags (ground arith) (ground arith)) (
            either E (c == b'o') (text 8 flags (ground arith) (ground arith)) (
              either E (c == b'n') (failed (ground arith)) (
                either E (c == b'p') (text 16 flags (ground arith) (ground arith)) (
                  either E (c == b'c') (Ensures-bind (va_arg-Word args) (λ (arg, args) w. holds tt))
                    (either E (c == b's')
                      (Ensures-bind (va_arg-Word args) (λ (str, args) w.
                        Ensures-bind (string_length-halts limit m precision str t)
                          (λ len u. holds tt)))
                      (either E (c == b'%') (holds tt) (holds tt))))))))))
  where
    E : Result (Option (List ℕ × List ℕ)) → Type 0
    E r = Ensures Any r

    text :
        (radix : ℕ) (flags : Flags)
        → 2 ≤ radix
        → radix ≤ 36
        → Ensures Any (do r ← number radix width flags args; ok (some r))
    text radix flags h k = Ensures-bind (number-halts radix width flags args h k) (λ r u. holds tt)

switch-Within :
    (limit : ℕ) (m : Memory) (flags : Flags) (width precision : ℤ) (fmt args : List ℕ)
    → AllTerminated limit m
    → Ensures (Within (List ℕ) (length fmt)) (switch limit m flags width precision fmt args)
unfolding switch
switch-Within limit m flags width precision [] args t = holds (omega arith)
switch-Within limit m flags width precision (c ∷ fmt) args t =
    Ensures-bind (convert-halts limit m c flags width precision args t) rest_of
  where
    rest_of :
        (r : Option (List ℕ × List ℕ))
        → Any r
        → Ensures (Within (List ℕ) (suc (length fmt))) (ok (converted c fmt args r))
    rest_of none u = holds (omega arith)
    rest_of (some (text, args)) u = holds (omega arith)

Within-le :
    {r : Result (List ℕ × Remaining)} {n k : ℕ}
    → n ≤ k
    → Ensures (Within (List ℕ) n) r
    → Ensures (Within (List ℕ) k) r
Within-le h w = Ensures-map w (λ (text, (fmt, args)) u. omega arith)

-- what follows the flags
behind_flags :
    (limit : ℕ) (m : Memory) (n : ℕ) (args : List ℕ) (r : Flags × List ℕ)
    → AllTerminated limit m
    → Rest n r
    → Ensures (Within (List ℕ) n) (
        let (flags, fmt) = r in
        (do
          ((flags, width), (fmt, args)) ← read_width flags fmt args
          (precision, (fmt, args)) ← read_precision fmt args
          switch limit m flags width precision (skip_qualifier fmt) args))
behind_flags limit m n args (flags, fmt) t h =
    Ensures-bind (read_width-Within flags fmt args) (λ ((flags, width), (fmt, args)) w.
      Ensures-bind (read_precision-Within fmt args) (λ (precision, (fmt, args)) p.
        Within-le (omega (arith, skip_qualifier-shorter fmt))
          (switch-Within limit m flags width precision (skip_qualifier fmt) args t)))

round-Within :
    (limit : ℕ) (m : Memory) (c : ℕ) (fmt args : List ℕ)
    → AllTerminated limit m
    → Ensures (Within (List ℕ) (length fmt)) (round limit m c fmt args)
unfolding round directive
round-Within limit m c fmt args t =
    either (Ensures (Within (List ℕ) (length fmt))) (c == b'%')
      (behind_flags limit m (length fmt) args (read_flags fmt no_flags) t
        (read_flags-Rest fmt no_flags))
      (holds (omega arith))

vsprintf_loop-halts :
    (fuel limit : ℕ) (m : Memory) (fmt args out : List ℕ)
    → AllTerminated limit m
    → length fmt < fuel
    → Ensures Any (vsprintf_loop fuel limit m fmt args out)
unfolding vsprintf_loop
vsprintf_loop-halts zero limit m fmt args out t h = absurd (omega arith)
vsprintf_loop-halts (suc fuel) limit m [] args out t h = holds tt
vsprintf_loop-halts (suc fuel) limit m (c ∷ fmt) args out t h =
    Ensures-bind (round-Within limit m c fmt args t) (λ (text, (fmt, args)) w.
      vsprintf_loop-halts fuel limit m fmt args (out ++ text) t (omega arith))

-- One round for each character, and one for the NUL, are enough for `vsprintf` with any format and
-- any arguments, where every string ends within the fuel of `strlen`.
pub vsprintf-halts :
    (limit : ℕ) (m : Memory) (fmt args : List ℕ)
    → AllTerminated limit m
    → vsprintf limit m fmt args ≢ fault out_of_fuel
unfolding vsprintf
vsprintf-halts limit m fmt args t =
    Ensures-halts (vsprintf_loop-halts (suc (length fmt)) limit m fmt args [] t (omega arith))
