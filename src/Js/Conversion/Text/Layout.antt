-- ===== src/Js/Conversion/Text/Layout.antt =====
-- The branches of `js_toString` of libs/js/conversion.c for numbers that are written without an
-- exponent.
use mathlib.Core.List.{append_assoc, append-nil}
use native.Mathlib.Nat.{div-div-eq-div-mul, pow-succ'}
use saki_os.Base.{
  ℕ, zero, suc, ◌+◌, ◌-◌, ◌/◌, ◌%◌, ◌^◌, ◌≤◌, ◌<◌, ◌≡◌, refl, ap, sym, ◌∙◌, pos, Bool, true, false,
  List, [], ◌∷◌, ◌++◌, map, Option, none, some, ltb, leb, if◌then◌else◌, ok, length, length-append,
  replicate, arith, Bool-cases, inl, inr,
}
use saki_os.Js.Conversion.Text.{
  Buffer, malloc, write, js_new_string, write_digits, write_zeros, finish, text_integer,
  text_decimal, layout,
}

-- the lowest `count` decimal digits of a number, as characters
pub decimal : ℕ → ℕ → List ℕ
decimal zero n = []
decimal (suc count) n = decimal count (n / 10) ++ (b'0' + n % 10) ∷ []

-- the sign of a text
abbrev pub sign : Bool → List ℕ
sign neg = if neg then b'-' ∷ [] else []

abbrev pub flag : Bool → ℕ
flag neg = if neg then 1 else 0

written : List ℕ → Buffer
written cs = map some cs

write-append :
    (before after : Buffer) (x : Option ℕ) (i c : ℕ)
    → length before ≡ i
    → write (before ++ x ∷ after) i c ≡ ok (before ++ some c ∷ after)
unfolding write
write-append [] after x zero c e = refl
write-append [] after x (suc i) c e = absurd (omega (arith, e))
write-append (y ∷ before) after x zero c e = absurd (omega (arith, e))
write-append (y ∷ before) after x (suc i) c e =
    rw (write-append before after x i c (omega (arith, e))) refl

length-malloc : (n : ℕ) → length (malloc n) ≡ n
unfolding malloc
length-malloc zero = refl
length-malloc (suc n) = ap suc (length-malloc n)

malloc_add : (m n : ℕ) → malloc (m + n) ≡ malloc m ++ malloc n
unfolding malloc
malloc_add zero n = ap malloc (omega arith)
malloc_add (suc m) n = ap malloc suc_add ∙ ap (λ b. none ∷ b) (malloc_add m n)
  where
    suc_add : suc m + n ≡ suc (m + n)
    suc_add = omega arith

malloc_snoc : (n : ℕ) (after : Buffer) → malloc (suc n) ++ after ≡ malloc n ++ none ∷ after
unfolding malloc
malloc_snoc zero after = refl
malloc_snoc (suc n) after = ap (λ b. none ∷ b) (malloc_snoc n after)

js_new_string-written : (cs : List ℕ) → js_new_string (written cs) ≡ ok cs
unfolding js_new_string written
js_new_string-written [] = refl
js_new_string-written (c ∷ cs) = rw (js_new_string-written cs) refl

-- the cell in front of `after`
last_cell :
    (before after : Buffer) (i : ℕ)
    → before ++ malloc (suc i) ++ after ≡ before ++ malloc i ++ none ∷ after
last_cell before after i =
    append_assoc before (malloc (suc i)) after
    ∙ ap (λ b. before ++ b) (malloc_snoc i after)
    ∙ sym (append_assoc before (malloc i) (none ∷ after))

written_snoc :
    (cs : List ℕ) (c : ℕ) (after : Buffer)
    → written (cs ++ c ∷ []) ++ after ≡ written cs ++ some c ∷ after
unfolding written
written_snoc [] c after = refl
written_snoc (x ∷ cs) c after = ap (λ b. some x ∷ b) (written_snoc cs c after)

before_snoc :
    (before : Buffer) (cs : List ℕ) (c : ℕ) (after : Buffer)
    → before ++ written cs ++ some c ∷ after ≡ before ++ written (cs ++ c ∷ []) ++ after
before_snoc before cs c after =
    append_assoc before (written cs) (some c ∷ after)
    ∙ ap (λ b. before ++ b) (sym (written_snoc cs c after))
    ∙ sym (append_assoc before (written (cs ++ c ∷ [])) after)

length-before :
    (before : Buffer) (at i : ℕ) → length before ≡ at → length (before ++ malloc i) ≡ at + i
length-before before at i e = omega (arith, length-append before (malloc i), length-malloc i, e)

write_digits_lem :
    (before after : Buffer) (at i S : ℕ)
    → length before ≡ at
    → write_digits (before ++ malloc i ++ after) at i S
      ≡ ok (before ++ written (decimal i S) ++ after, S / 10 ^ i)
unfolding write_digits decimal
write_digits_lem before after at zero S e =
    unfold malloc written in ap (λ q. ok (before ++ [] ++ after, q)) (omega arith)
write_digits_lem before after at (suc i) S e =
    let c = b'0' + S % 10 in
    rw
      (
        last_cell before after i,
        write-append (before ++ malloc i) after none (at + i) c (length-before before at i e),
        write_digits_lem before (some c ∷ after) at i (S / 10) e,
        before_snoc before (decimal i (S / 10)) c after,
      )
      (ap (λ q. ok (before ++ written (decimal (suc i) S) ++ after, q))
        (div-div-eq-div-mul S 10 (10 ^ i) ∙ ap (λ q. S / q) (sym (pow-succ' 10 i))))

one_more :
    (before rest after : Buffer) (x : Option ℕ)
    → before ++ x ∷ (rest ++ after) ≡ before ++ (x ∷ []) ++ rest ++ after
one_more before rest after x =
    sym (append_assoc (before ++ x ∷ []) rest after ∙ append_assoc before (x ∷ []) (rest ++ after))

write_zeros_lem :
    (before after : Buffer) (at i : ℕ)
    → length before ≡ at
    → write_zeros (before ++ malloc i ++ after) at i
      ≡ ok (before ++ written (replicate i b'0') ++ after)
unfolding write_zeros written malloc
write_zeros_lem before after at zero e = refl
write_zeros_lem before after at (suc i) e =
    rw
      (
        append_assoc before (none ∷ malloc i) after,
        write-append before (malloc i ++ after) none at b'0' e,
        one_more before (malloc i) after (some b'0'),
        write_zeros_lem (before ++ some b'0' ∷ []) after (at + 1) i
            (omega (arith, length-append before (some b'0' ∷ []), e)),
      )
      (ap ok (
        sym (one_more before (written (replicate i b'0')) after (some b'0'))
        ∙ sym (append_assoc before (some b'0' ∷ written (replicate i b'0')) after)))

finish_lem :
    (neg : Bool) (cs : List ℕ)
    → finish (flag neg) (malloc (flag neg) ++ written cs) ≡ ok (sign neg ++ cs)
unfolding malloc write js_new_string
finish_lem true cs = rw (js_new_string-written cs) refl
finish_lem false cs = js_new_string-written cs

written-append : (cs ds : List ℕ) → written cs ++ written ds ≡ written (cs ++ ds)
unfolding written
written-append [] ds = refl
written-append (c ∷ cs) ds = ap (λ b. some c ∷ b) (written-append cs ds)

length-written : (cs : List ℕ) → length (written cs) ≡ length cs
unfolding written
length-written [] = refl
length-written (c ∷ cs) = ap suc (length-written cs)

length-decimal : (count n : ℕ) → length (decimal count n) ≡ count
unfolding decimal
length-decimal zero n = refl
length-decimal (suc count) n = omega (
  arith,
  length-append (decimal count (n / 10)) ((b'0' + n % 10) ∷ []),
  length-decimal count (n / 10),
)

-- the same at the end of the memory
write_digits_end :
    (before : Buffer) (at i S : ℕ)
    → length before ≡ at
    → write_digits (before ++ malloc i) at i S ≡ ok (before ++ written (decimal i S), S / 10 ^ i)
write_digits_end before at i S e =
    let p = write_digits_lem before [] at i S e in
    rw (append-nil (before ++ malloc i), append-nil (before ++ written (decimal i S))) at p

write_zeros_end :
    (before : Buffer) (at i : ℕ)
    → length before ≡ at
    → write_zeros (before ++ malloc i) at i ≡ ok (before ++ written (replicate i b'0'))
write_zeros_end before at i e =
    let p = write_zeros_lem before [] at i e in
    rw (append-nil (before ++ malloc i), append-nil (before ++ written (replicate i b'0'))) at p

malloc_three : (a b c n : ℕ) → n ≡ a + b + c → malloc n ≡ malloc a ++ malloc b ++ malloc c
malloc_three a b c n e =
    ap malloc e ∙ malloc_add (a + b) c ∙ ap (λ x. x ++ malloc c) (malloc_add a b)

length-digits : (f K S : ℕ) → length (malloc f ++ written (decimal K S)) ≡ f + K
length-digits f K S = omega (
  arith,
  length-append (malloc f) (written (decimal K S)),
  length-malloc f,
  length-written (decimal K S),
  length-decimal K S,
)

text_integer_lem :
    (neg : Bool) (S N K : ℕ)
    → K ≤ N
    → text_integer (flag neg) S N K ≡ ok (sign neg ++ (decimal K S ++ replicate (N - K) b'0'))
unfolding text_integer
text_integer_lem neg S N K h =
    let f : ℕ = flag neg in
    let D : List ℕ = decimal K S in
    let Z : List ℕ = replicate (N - K) b'0' in
    rw
      (
        malloc_three f K (N - K) (N + f) (omega (arith, h)),
        write_digits_lem (malloc f) (malloc (N - K)) f K S (length-malloc f),
        write_zeros_end (malloc f ++ written D) (f + K) (N - K) (length-digits f K S),
        append_assoc (malloc f) (written D) (written Z),
        written-append D Z,
      )
      (finish_lem neg (D ++ Z))

-- the memory with the point in it, in front of `rest`
text_decimal_lem :
    (neg : Bool) (S N K : ℕ)
    → N < K
    → text_decimal (flag neg) S N K
      ≡ ok (sign neg ++ (decimal N (S / 10 ^ (K - N)) ++ b'.' ∷ decimal (K - N) S))
unfolding text_decimal malloc
text_decimal_lem neg S N K h =
    let f : ℕ = flag neg in
    let R : List ℕ = decimal (K - N) S in
    let D : List ℕ = decimal N (S / 10 ^ (K - N)) in
    let point : Option ℕ = some b'.' in
    let M : Buffer = malloc f ++ malloc N in
    let length_M : length M ≡ f + N = length-before (malloc f) f N (length-malloc f) in
    rw
      (
        malloc_three f N (suc (K - N)) (K + 1 + f) (omega (arith, h)),
        write-append M (malloc (K - N)) none (f + N) b'.' length_M,
        sym (append_assoc M (point ∷ []) (malloc (K - N))),
        write_digits_end (M ++ point ∷ []) (f + N + 1) (K - N) S
            (omega (arith, length-append M (point ∷ []), length_M)),
        append_assoc M (point ∷ []) (written R),
        write_digits_lem (malloc f) (point ∷ written R) f N (S / 10 ^ (K - N)) (length-malloc f),
        append_assoc (malloc f) (written D) (point ∷ written R),
      )
      (unfold written in rw (written-append D (b'.' ∷ R)) (finish_lem neg (D ++ b'.' ∷ R)))

-- the text of a number with the digits `decimal K S` and the point behind the `N`-th, in front of which
-- zeros fill up
pub plain_text : Bool → ℕ → ℕ → ℕ → List ℕ
plain_text neg S N K =
    sign neg
    ++ (if leb K N
        then decimal K S ++ replicate (N - K) b'0'
        else decimal N (S / 10 ^ (K - N)) ++ b'.' ∷ decimal (K - N) S)

-- A number whose point stands behind 1 to 21 of its digits: all writes stay inside the allocated
-- string, fill it, and give the sign, the digits with the point in its place, and zeros up to it.
pub layout-plain_text :
    (neg : Bool) (S N K : ℕ)
    → 0 < N
    → N ≤ 21
    → layout (flag neg) S (pos N) K ≡ ok (plain_text neg S N K)
unfolding layout plain_text
layout-plain_text neg S N K h g =
    let top : leb N 21 ≡ true = ground (arith, g) in
    let low : ltb 0 N ≡ true = ground (arith, h) in
    elim (Bool-cases (leb K N)) [
      | inl e ↦ rw (e, top) (text_integer_lem neg S N K (ground (arith, e)))
      | inr e ↦ rw (e, top, low) (text_decimal_lem neg S N K (ground (arith, e)))
    ]
