-- ===== src/Unicode/Convert/RoundTrip.antt =====
-- libs/unicode/convert.c: every well-formed UTF-16 string survives the way through UTF-8.
use saki_os.Base.{
  ℕ, zero, suc, ◌+◌, ◌/◌, ◌%◌, ◌^◌, ◌≤◌, ◌<◌, ◌≡◌, refl, ap, ◌∙◌, false, ◌&&◌, List, [], ◌∷◌, ◌++◌,
  ok, arith, ltb, leb, ◌>>=◌, length, Result, ◌⊎◌, inl, inr, ==_refl, le_cases,
}
use saki_os.Unicode.Convert.{
  count_utf16_step, count_utf8_step, to_utf16_step, to_utf8_step, count_loop, write_loop,
  unicode_to_utf16, unicode_to_utf8,
}
use saki_os.Unicode.Convert.Steps.{
  to_utf8-one, count_utf8-one, to_utf16-one, count_utf16-one, to_utf8-two, count_utf8-two,
  to_utf16-two, count_utf16-two, to_utf8-three, count_utf8-three, to_utf16-three, count_utf16-three,
}
use saki_os.Unicode.Convert.Pairs.{
  to_utf8-four, count_utf8-four, to_utf16-four, count_utf16-four, scalar, byte0, byte1, byte2,
  byte3,
}

-- Units of 16 bits, in which every high surrogate stands before a low one.
pub data IsUtf16 : List ℕ → Type 0 where
  nil : IsUtf16 []
  unit :
      {c : ℕ} {s : List ℕ} → c < 2 ^ 16 → (c < 0xD800) ⊎ (0xDC00 ≤ c) → IsUtf16 s → IsUtf16 (c ∷ s)
  pair :
      {c n : ℕ} {s : List ℕ}
      → 0xD800 ≤ c
      → c < 0xDC00
      → 0xDC00 ≤ n
      → n < 0xE000
      → IsUtf16 s
      → IsUtf16 (c ∷ n ∷ s)

abbrev pub AreBytes : List ℕ → Type 0
AreBytes [] = Unit
AreBytes (c ∷ s) = (c < 2 ^ 8) × AreBytes s

module _ (step : ℕ → List ℕ → Result (List ℕ × List ℕ)) (c : ℕ) (s units rest more : List ℕ) where
  write_loop_step :
      step c s ≡ ok (units, rest)
      → length rest ≤ length s
      → ((f : ℕ) → length rest ≤ f → write_loop step f rest ≡ ok more)
      → (f : ℕ) → length (c ∷ s) ≤ f
      → write_loop step f (c ∷ s) ≡ ok (units ++ more)
  unfolding write_loop
  write_loop_step e shrinks later zero h = absurd (omega arith)
  write_loop_step e shrinks later (suc f) h = rw (e, later f (omega arith))

module _ (step : ℕ → List ℕ → Result (ℕ × List ℕ)) (c k : ℕ) (s rest : List ℕ) (n : ℕ) where
  count_loop_step :
      step c s ≡ ok (k, rest)
      → length rest ≤ length s
      → ((f : ℕ) → length rest ≤ f → count_loop step f rest ≡ ok n)
      → (f : ℕ) → length (c ∷ s) ≤ f
      → count_loop step f (c ∷ s) ≡ ok (k + n)
  unfolding count_loop
  count_loop_step e shrinks later zero h = absurd (omega arith)
  count_loop_step e shrinks later (suc f) h = rw (e, later f (omega arith))

-- `u` is what the four loops make of `xs`, and `xs` what they make of `u`.
record Coded (xs u : List ℕ) : Type 0 where
  bytes : AreBytes u
  write8 : (f : ℕ) → length xs ≤ f → write_loop to_utf8_step f xs ≡ ok u
  count8 : (f : ℕ) → length xs ≤ f → count_loop count_utf8_step f xs ≡ ok (length u)
  write16 : (f : ℕ) → length u ≤ f → write_loop to_utf16_step f u ≡ ok xs
  count16 : (f : ℕ) → length u ≤ f → count_loop count_utf16_step f u ≡ ok (length xs)

nothing-Coded : Coded [] []
unfolding write_loop count_loop
nothing-Coded = record {
  bytes = tt;
  write8 = λ f h. refl;
  count8 = λ f h. refl;
  write16 = λ f h. refl;
  count16 = λ f h. refl;
}

-- a count that a round adds to, in the form in which `length` computes
module _ {r : Result ℕ} where
  one_more : (n : ℕ) → r ≡ ok (1 + n) → r ≡ ok (suc n)
  one_more n e = e ∙ ap (λ (k : ℕ). ok k) (omega arith)

  two_more : (n : ℕ) → r ≡ ok (2 + n) → r ≡ ok (suc (suc n))
  two_more n e = e ∙ ap (λ (k : ℕ). ok k) (omega arith)

  three_more : (n : ℕ) → r ≡ ok (3 + n) → r ≡ ok (suc (suc (suc n)))
  three_more n e = e ∙ ap (λ (k : ℕ). ok k) (omega arith)

  four_more : (n : ℕ) → r ≡ ok (4 + n) → r ≡ ok (suc (suc (suc (suc n))))
  four_more n e = e ∙ ap (λ (k : ℕ). ok k) (omega arith)

module _ {s u : List ℕ} (d : Coded s u) where
  one-Coded : (c : ℕ) → c < 0x7F → Coded (c ∷ s) (c ∷ u)
  one-Coded c hi = record {
    bytes = (omega arith, d.bytes);
    write8 =
        write_loop_step to_utf8_step c s (c ∷ []) s u (to_utf8-one s c hi) (omega arith) d.write8;
    count8 = λ f h. one_more (length u) (
        count_loop_step count_utf8_step c 1 s s (length u) (count_utf8-one s c hi) (omega arith)
          d.count8 f h);
    write16 =
        write_loop_step to_utf16_step c u (c ∷ []) u s (to_utf16-one u c hi) (omega arith)
          d.write16;
    count16 = λ f h. one_more (length s) (
        count_loop_step count_utf16_step c 1 u u (length s) (count_utf16-one u c hi) (omega arith)
          d.count16 f h);
  }

  two-Coded : (c : ℕ) → 0x7F ≤ c → c < 0x7FF → Coded (c ∷ s) ((c / 64 + 0xC0) ∷ (c % 64 + 0x80) ∷ u)
  two-Coded c lo hi =
      let b = c / 64 + 0xC0 in
      let t = (c % 64 + 0x80) ∷ u in
      record {
        bytes = (omega arith, (omega arith, d.bytes));
        write8 =
            write_loop_step to_utf8_step c s _ s u (to_utf8-two s c lo hi) (omega arith) d.write8;
        count8 = λ f h. two_more (length u) (
            count_loop_step count_utf8_step c 2 s s (length u) (count_utf8-two s c lo hi)
              (omega arith) d.count8 f h);
        write16 =
            write_loop_step to_utf16_step b t (c ∷ []) u s (to_utf16-two u c lo hi) (omega arith)
              d.write16;
        count16 = λ f h. one_more (length s) (
            count_loop_step count_utf16_step b 1 t u (length s) (count_utf16-two u c lo hi)
              (omega arith) d.count16 f h);
      }

  three-Coded :
      (c : ℕ)
      → 0x7FF ≤ c
      → c < 2 ^ 16
      → (leb 0xD800 c && ltb c 0xDC00) ≡ false
      → Coded (c ∷ s) ((c / 4096 + 0xE0) ∷ (c / 64 % 64 + 0x80) ∷ (c % 64 + 0x80) ∷ u)
  three-Coded c lo hi plain =
      let b = c / 4096 + 0xE0 in
      let t = (c / 64 % 64 + 0x80) ∷ (c % 64 + 0x80) ∷ u in
      record {
        bytes = (omega arith, (omega arith, (omega arith, d.bytes)));
        write8 =
            write_loop_step to_utf8_step c s _ s u (to_utf8-three s c lo hi plain) (omega arith)
              d.write8;
        count8 = λ f h. three_more (length u) (
            count_loop_step count_utf8_step c 3 s s (length u) (count_utf8-three s c lo hi plain)
              (omega arith) d.count8 f h);
        write16 =
            write_loop_step to_utf16_step b t (c ∷ []) u s (to_utf16-three u c lo hi) (omega arith)
              d.write16;
        count16 = λ f h. one_more (length s) (
            count_loop_step count_utf16_step b 1 t u (length s) (count_utf16-three u c lo hi)
              (omega arith) d.count16 f h);
      }

  four-Coded :
      (c n : ℕ)
      → 0xD800 ≤ c
      → c < 0xDC00
      → 0xDC00 ≤ n
      → n < 0xE000
      → Coded
          (c ∷ n ∷ s)
          (byte0 (scalar c n) ∷ byte1 (scalar c n) ∷ byte2 (scalar c n) ∷ byte3 (scalar c n) ∷ u)
  four-Coded c n c_lo c_hi n_lo n_hi =
      let v = scalar c n in
      let t = byte1 v ∷ byte2 v ∷ byte3 v ∷ u in
      record {
        bytes = (omega arith, (omega arith, (omega arith, (omega arith, d.bytes))));
        write8 =
            write_loop_step to_utf8_step c (n ∷ s) _ s u (to_utf8-four s c n c_lo c_hi n_lo n_hi)
              (omega arith) d.write8;
        count8 = λ f h. four_more (length u) (
            count_loop_step count_utf8_step c 4 (n ∷ s) s (length u)
              (count_utf8-four s c n c_lo c_hi n_lo n_hi) (omega arith) d.count8 f h);
        write16 =
            write_loop_step to_utf16_step (byte0 v) t (c ∷ n ∷ []) u s
              (to_utf16-four u c n c_lo c_hi n_lo n_hi) (omega arith) d.write16;
        count16 = λ f h. two_more (length s) (
            count_loop_step count_utf16_step (byte0 v) 2 t u (length s)
              (count_utf16-four u c n c_lo c_hi n_lo n_hi) (omega arith) d.count16 f h);
      }

coded : {xs : List ℕ} → IsUtf16 xs → (u : List ℕ) × Coded xs u
coded nil = ([], nothing-Coded)
coded (unit {c} hi plain w) =
    let (u, d) = coded w in
    elim (le_cases c 0x7F) [
      | inl a ↦ (_, one-Coded d c a)
      | inr b ↦ elim (le_cases c 0x7FF) [
        | inl a ↦ (_, two-Coded d c b a)
        | inr b' ↦ (_, three-Coded d c b' hi (ground arith))
      ]
    ]
coded (pair {c} {n} c_lo c_hi n_lo n_hi w) =
    let (u, d) = coded w in (_, four-Coded d c n c_lo c_hi n_lo n_hi)

-- On well-formed UTF-16 no assertion of the two conversions fails and no read leaves a string: the
-- first yields bytes, and the second yields the string back.
pub to_utf16-to_utf8 :
    {xs : List ℕ}
    → IsUtf16 xs
    → (u : List ℕ) × (unicode_to_utf8 xs ≡ ok u) × (unicode_to_utf16 u ≡ ok xs) × AreBytes u
unfolding unicode_to_utf8 unicode_to_utf16
to_utf16-to_utf8 {xs} w =
    let (u, d) = coded w in
    (
      u,
      rw (
        d.count8 (length xs) (omega arith),
        ◌>>=◌,
        d.write8 (length xs) (omega arith),
        ==_refl (length u),
      ),
      rw (
        d.count16 (length u) (omega arith),
        ◌>>=◌,
        d.write16 (length u) (omega arith),
        ==_refl (length xs),
      ),
      d.bytes,
    )
