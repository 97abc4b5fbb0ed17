-- ===== src/Format/Swaps.antt =====
-- libs/lib-format/format.c: the loop of `itoa` that swaps characters reverses what follows `k`.
use saki_os.Base.{
  ℕ, zero, suc, ◌+◌, ◌-◌, ◌/◌, ◌≤◌, ◌<◌, ◌≡◌, ◌∙◌, refl, ap, ap₂, ◌&&◌, ◌||◌, List, [], ◌∷◌, ◌++◌,
  ◌==◌, ltb, leb, if◌then◌else◌, length, get_or, set, length-append, length-set, get_or-set, arith,
}
use mathlib.Core.List.{reverse, reverse-cons}
use saki_os.Format.Itoa.{swap_loop, reverse_from}

get_or-append :
    (xs ys : List ℕ) (a : ℕ)
    → get_or (xs ++ ys) a 0
      ≡ (if ltb a (length xs) then get_or xs a 0 else get_or ys (a - length xs) 0)
get_or-append [] ys a = ground arith
get_or-append (x ∷ xs) ys zero = ground arith
get_or-append (x ∷ xs) ys (suc a) = get_or-append xs ys a ∙ ground arith

pub length-reverse : (xs : List ℕ) → length (reverse xs) ≡ length xs
length-reverse [] = refl
length-reverse (x ∷ xs) =
    ap length (reverse-cons x xs)
    ∙ omega (arith, length-append (reverse xs) (x ∷ []), length-reverse xs)

get_or-cons :
    (x : ℕ) (xs : List ℕ) (a : ℕ)
    → get_or (x ∷ xs) a 0 ≡ (if a == 0 then x else get_or xs (a - 1) 0)
get_or-cons x xs zero = refl
get_or-cons x xs (suc a) = ground arith

get_or-reverse :
    (xs : List ℕ) (a : ℕ)
    → a < length xs
    → get_or (reverse xs) a 0 ≡ get_or xs (length xs - 1 - a) 0
get_or-reverse [] a h = absurd (omega arith)
get_or-reverse (x ∷ xs) a h =
    ap (λ ys. get_or ys a 0) (reverse-cons x xs)
    ∙ get_or-append (reverse xs) (x ∷ []) a
    ∙ last_or_before (get_or-reverse xs a)
  where
    last_or_before :
        (a < length xs → get_or (reverse xs) a 0 ≡ get_or xs (length xs - 1 - a) 0)
        → (if ltb a (length (reverse xs))
            then get_or (reverse xs) a 0
            else get_or (x ∷ []) (a - length (reverse xs)) 0)
          ≡ get_or (x ∷ xs) (length (x ∷ xs) - 1 - a) 0
    last_or_before ih = ground (
      arith,
      length-reverse xs,
      get_or-cons x xs (length (x ∷ xs) - 1 - a),
      get_or-cons x [] (a - length (reverse xs)),
    )

-- Two lists of one length that agree at each index are equal.
list_ext :
    (xs ys : List ℕ)
    → length xs ≡ length ys
    → ((a : ℕ) → a < length xs → get_or xs a 0 ≡ get_or ys a 0)
    → xs ≡ ys
list_ext [] [] e h = refl
list_ext [] (y ∷ ys) e h = absurd (omega arith)
list_ext (x ∷ xs) [] e h = absurd (omega arith)
list_ext (x ∷ xs) (y ∷ ys) e h =
    ap₂ (λ z zs. z ∷ zs) (h 0 (omega arith))
      (list_ext xs ys (omega arith) (λ a p. h (suc a) (omega arith)))

length-swap_loop :
    (rounds j last : ℕ) (str : List ℕ) → length (swap_loop rounds j last str) ≡ length str
unfolding swap_loop
length-swap_loop zero j last str = refl
length-swap_loop (suc rounds) j last str =
    length-swap_loop rounds (j + 1) last _
    ∙ length-set (set str j _) (last - j) _
    ∙ length-set str j _

get_or-swap :
    (str : List ℕ) (j i a : ℕ)
    → j < length str
    → i < length str
    → get_or (set (set str j (get_or str i 0)) i (get_or str j 0)) a 0
      ≡ (if a == i then get_or str j 0 else if a == j then get_or str i 0 else get_or str a 0)
get_or-swap str j i a hj hi =
    get_or-set (set str j (get_or str i 0)) i a (get_or str j 0) 0
      (omega (arith, length-set str j (get_or str i 0)))
    ∙ ap (λ x. if a == i then get_or str j 0 else x) (get_or-set str j a (get_or str i 0) 0 hj)

swap_step :
    (S S' : ℕ → ℕ) (rounds j last a : ℕ)
    → suc rounds + j ≤ last / 2 + 1
    → ((b : ℕ) → S' b ≡ (if b == last - j then S j else if b == j then S (last - j) else S b))
    → (if (leb (j + 1) a && ltb a (j + 1 + rounds))
          || (leb a (last - (j + 1)) && ltb (last - (j + 1)) (a + rounds))
        then S' (last - a)
        else S' a)
      ≡ (if (leb j a && ltb a (j + suc rounds))
            || (leb a (last - j) && ltb (last - j) (a + suc rounds))
          then S (last - a)
          else S a)
swap_step S S' rounds j last a k e = ground (arith, e a, e (last - a))

-- The swaps exchange the indices from `j` with their mirrors.
get_or-swap_loop :
    (rounds j last : ℕ) (str : List ℕ)
    → last < length str + j
    → rounds + j ≤ last / 2 + 1
    → (a : ℕ)
    → get_or (swap_loop rounds j last str) a 0 ≡ (
        if (leb j a && ltb a (j + rounds)) || (leb a (last - j) && ltb (last - j) (a + rounds))
        then get_or str (last - a) 0
        else get_or str a 0)
unfolding swap_loop
get_or-swap_loop zero j last str h k a = ground arith
get_or-swap_loop (suc rounds) j last str h k a =
    get_or-swap_loop rounds (j + 1) last _
      (omega (
        arith,
        length-set (set str j (get_or str (last - j) 0)) (last - j) (get_or str j 0),
        length-set str j (get_or str (last - j) 0),
      ))
      (omega arith) a
    ∙ swap_step (λ i. get_or str i 0) _ rounds j last a k
        (λ b. get_or-swap str j (last - j) b (omega arith) (omega arith))

get_or-reverse_from :
    (k : ℕ) (str : List ℕ) (a : ℕ)
    → k < length str
    → get_or (reverse_from k str) a 0 ≡ (
        if leb k a && ltb a (length str)
        then get_or str (length str + k - 1 - a) 0
        else get_or str a 0)
get_or-reverse_from k str a h =
    get_or-swap_loop ((length str + k - 1) / 2 + 1 - k) k (length str + k - 1) str (omega arith)
      (omega arith) a
    ∙ ground arith

-- What stands behind `front` is reversed.
pub reverse_from-append :
    (front body : List ℕ)
    → 1 ≤ length body
    → reverse_from (length front) (front ++ body) ≡ front ++ reverse body
reverse_from-append front body h =
    list_ext (reverse_from (length front) (front ++ body)) (front ++ reverse body)
      (length-reverse_from
        ∙ omega (
          arith,
          length-append front body,
          length-append front (reverse body),
          length-reverse body,
        ))
      (λ a p.
        get_or-reverse_from (length front) (front ++ body) a
          (omega (arith, length-append front body))
        ∙ ground (
          arith,
          length-append front body,
          get_or-append front body a,
          get_or-append front body (length (front ++ body) + length front - 1 - a),
          get_or-append front (reverse body) a,
          get_or-reverse body (a - length front),
          length-reverse_from,
        ))
  where
    length-reverse_from :
        length (reverse_from (length front) (front ++ body)) ≡ length (front ++ body)
    length-reverse_from =
        length-swap_loop ((length (front ++ body) + length front - 1) / 2 + 1 - length front)
          (length front) (length (front ++ body) + length front - 1) (front ++ body)
