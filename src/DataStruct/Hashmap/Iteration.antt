-- ===== src/DataStruct/Hashmap/Iteration.antt =====
-- `hashmap_iterator`, `hashmap_next` and `hashmap_dispose` of libs/data-struct/hashmap.c.
use saki_os.Base.{
  ℕ, zero, suc, ◌+◌, ◌-◌, ◌%◌, ◌<◌, ◌≤◌, ◌≡◌, refl, ap, subst, ◌≢◌, ◌∙◌, List, [], ◌⊎◌, ◌∷◌, ◌++◌,
  map, Option, none, some, arith, ◌==◌, length, get_or, Bool-cases, le_cases, inl, inr, sym, ==→eq,
}
use saki_os.DataStruct.Hashmap.{
  Node, Chain, Hashmap, Iterator, dispose_from, hashmap_dispose, hashmap_iterator, next_bucket,
  hashmap_next, get_chain,
}
use saki_os.DataStruct.Hashmap.Chain.{find, IsPlaced}
use saki_os.DataStruct.Hashmap.Laws.{IsValid, view, home}
use saki_os.DataStruct.Key.{Key}

module _ {ℓ} {K V : Type ℓ} where
  abbrev pub entry : Node K V → K × V
  entry n = (n.key, n.item)

  -- a client's loop: `hashmap_next` until it returns NULL
  unfoldable pub drain : ℕ → Iterator K V → List (K × V)
  drain zero i = []
  drain (suc rounds) i = elim (hashmap_next i) [ none ↦ [] | some r ↦ r.0 ∷ drain rounds r.1 ]

  -- the nodes that an iterator has not yet returned
  left : Iterator K V → Chain K V
  left i = i.next ++ dispose_from (i.hm.size - i.entered) i.entered i.hm

  abbrev Yields : Option ((K × V) × Iterator K V) → Hashmap K V → Chain K V → Type ℓ
  Yields o hm [] = o ≡ none
  Yields o hm (n ∷ c) =
      (i : Iterator K V) × (o ≡ some (entry n, i))
      × (left i ≡ c)
      × (i.hm ≡ hm)
      × (i.entered ≤ hm.size)

  next_bucket-Yields :
      (rounds : ℕ) (hm : Hashmap K V) (i : ℕ)
      → hm.size ≡ rounds + i
      → Yields (next_bucket rounds hm i) hm (dispose_from rounds i hm)
  unfolding next_bucket dispose_from left
  next_bucket-Yields zero hm i e = refl
  next_bucket-Yields (suc rounds) hm i e =
      go (get_or hm.node i []) (next_bucket-Yields rounds hm (i + 1) (omega arith))
    where
      go :
          (c : Chain K V)
          → Yields (next_bucket rounds hm (i + 1)) hm (dispose_from rounds (i + 1) hm)
          → Yields
              (elim c [
                | [] ↦ next_bucket rounds hm (i + 1)
                | mn ∷ rest ↦
                    some ((mn.key, mn.item), record { hm = hm; entered = i + 1; next = rest })
              ])
              hm
              (c ++ dispose_from rounds (i + 1) hm)
      go [] later = later
      go (n ∷ c) later =
          let e' : hm.size - (i + 1) ≡ rounds = omega arith in
          (record { hm = hm; entered = i + 1; next = c }, refl, rw e', refl, omega arith)

  next-Yields :
      (next : Chain K V) (hm : Hashmap K V) (entered : ℕ)
      → entered ≤ hm.size
      → Yields
          (hashmap_next (record { hm = hm; entered = entered; next = next }))
          hm
          (left (record { hm = hm; entered = entered; next = next }))
  unfolding hashmap_next left
  next-Yields [] hm entered h = next_bucket-Yields (hm.size - entered) hm entered (omega arith)
  next-Yields (n ∷ c) hm entered h =
      (record { hm = hm; entered = entered; next = c }, refl, refl, refl, h)

  drain_done : (rounds : ℕ) (i : Iterator K V) → hashmap_next i ≡ none → drain (suc rounds) i ≡ []
  unfolding drain
  drain_done rounds i e = rw (e, drain)

  drain_step :
      (rounds : ℕ) (i : Iterator K V) {r : (K × V) × Iterator K V}
      → hashmap_next i ≡ some r
      → drain (suc rounds) i ≡ r.0 ∷ drain rounds r.1
  unfolding drain
  drain_step rounds i e = rw (e, drain)

  drain-left :
      (c : Chain K V) (i : Iterator K V) (rounds : ℕ)
      → left i ≡ c
      → i.entered ≤ i.hm.size
      → length c < rounds
      → drain rounds i ≡ map entry c
  drain-left c i zero e h fuel = absurd (omega arith)
  drain-left [] i (suc rounds) e h fuel =
      let y = subst (Yields (hashmap_next i) i.hm) e (next-Yields i.next i.hm i.entered h) in
      drain_done rounds i y
  drain-left (n ∷ c) i (suc rounds) e h fuel =
      let (i', got, rest, same_hm, h') =
        subst (Yields (hashmap_next i) i.hm) e (next-Yields i.next i.hm i.entered h) in
      drain_step rounds i got
      ∙ ap (λ l. entry n ∷ l) (drain-left c i' rounds rest (rw same_hm h') (omega arith))

  left-iterator : (hm : Hashmap K V) → left (hashmap_iterator hm) ≡ dispose_from hm.size 0 hm
  unfolding left hashmap_iterator
  left-iterator hm = let e : hm.size - 0 ≡ hm.size = omega arith in rw e

  -- With more rounds than there are nodes, calling `hashmap_next` until it returns NULL gives the entries
  -- of the nodes that `hashmap_dispose` frees, in the same order. The table need not be valid.
  pub drain-dispose :
      (hm : Hashmap K V) (rounds : ℕ)
      → length (hashmap_dispose hm) < rounds
      → drain rounds (hashmap_iterator hm) ≡ map entry (hashmap_dispose hm)
  unfolding hashmap_dispose hashmap_iterator
  drain-dispose hm rounds h =
      drain-left (dispose_from hm.size 0 hm) (hashmap_iterator hm) rounds (left-iterator hm)
        (omega arith) h

abbrev or_else {ℓ} : {V : Type ℓ} → Option V → Option V → Option V
or_else none o = o
or_else (some v) o = some v

or_else-none {ℓ} : {V : Type ℓ} (o : Option V) → or_else o none ≡ o
or_else-none none = refl
or_else-none (some v) = refl

module _ {ℓ} {K V : Type ℓ} ⦃k : Key K⦄ where
  find-append : (q : K) (a b : Chain K V) → find q (a ++ b) ≡ or_else (find q a) (find q b)
  unfolding find get_chain
  find-append q [] b = refl
  find-append q (n ∷ a) b = ground (arith, find-append q a b)

  find_elsewhere :
      (size b : ℕ) (q : K) (c : Chain K V)
      → IsPlaced size b c
      → k.hash q % size ≢ b
      → find q c ≡ none
  unfolding find get_chain IsPlaced
  find_elsewhere size b q [] p ne = refl
  find_elsewhere size b q (n ∷ c) p ne = elim (Bool-cases (n.hash == k.hash q)) [
    | inl e ↦ absurd (ne (ap (λ h. h % size) (sym (==→eq n.hash (k.hash q) e)) ∙ p.1))
    | inr e ↦ rw e (find_elsewhere size b q c p.3 ne)
  ]

  module _ {hm : Hashmap K V} (valid : IsValid hm) (q : K) where
    find-dispose_outside :
        (rounds i : ℕ)
        → (home hm q < i) ⊎ (i + rounds ≤ home hm q)
        → find q (dispose_from rounds i hm) ≡ none
    unfolding dispose_from find get_chain
    find-dispose_outside zero i h = refl
    find-dispose_outside (suc rounds) i h =
        find-append q (get_or hm.node i []) (dispose_from rounds (i + 1) hm)
        ∙ rw (find_elsewhere hm.size i q (get_or hm.node i []) (valid.placed i) (grind arith))
            (find-dispose_outside rounds (i + 1) (grind arith))

    find-dispose_inside :
        (rounds i : ℕ)
        → i ≤ home hm q
        → home hm q < i + rounds
        → find q (dispose_from rounds i hm) ≡ view hm q
    unfolding dispose_from
    find-dispose_inside zero i lo hi = absurd (omega arith)
    find-dispose_inside (suc rounds) i lo hi =
        find-append q (get_or hm.node i []) (dispose_from rounds (i + 1) hm)
        ∙ elim (le_cases i (home hm q)) [
          | inl lt ↦
              rw (find_elsewhere hm.size i q (get_or hm.node i []) (valid.placed i) (omega arith))
                (find-dispose_inside rounds (i + 1) (omega arith) (omega arith))
          | inr ge ↦
              let e : i ≡ home hm q = omega arith in
              rw (find-dispose_outside rounds (i + 1) (inl (omega arith)), e)
                (unfold view in or_else-none (view hm q))
        ]

    -- In a valid table the first node with the key among all nodes, in the order of `hashmap_dispose`, is
    -- the one that its own bucket has.
    pub find-dispose : find q (hashmap_dispose hm) ≡ view hm q
    unfolding hashmap_dispose
    find-dispose = find-dispose_inside hm.size 0 (omega arith) (omega (arith, valid.pos))
