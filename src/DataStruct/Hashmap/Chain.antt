-- ===== src/DataStruct/Hashmap/Chain.antt =====
-- One chain of libs/data-struct/hashmap.c: what the three loops do to the lookup of any key.
use saki_os.Base.{
  ℕ, ◌%◌, ◌≡◌, refl, Bool, true, false, not, [], ◌∷◌, Option, none, some, arith, if◌then◌else◌,
  Bool-cases, inl, inr,
}
use saki_os.DataStruct.Hashmap.{Node, Chain, hit, put_chain, get_chain, remove_chain}
use saki_os.DataStruct.Key.{Key, same, same_symm, same_congr, same_congr_right, same_hash}

abbrev pub is_some {ℓ} : {A : Type ℓ} → Option A → Bool
is_some none = false
is_some (some a) = true

module _ {ℓ} {K V : Type ℓ} ⦃k : Key K⦄ where
  unfoldable pub find : K → Chain K V → Option V
  unfolding get_chain
  find q c = get_chain (k.hash q) q c

  -- Each node holds the hash of its key, which leads to bucket `b` of `size`, and no later node of
  -- the chain has an equal key.
  unfoldable pub IsPlaced : ℕ → ℕ → Chain K V → Type ℓ
  IsPlaced size b [] = Unit
  IsPlaced size b (n ∷ c) =
      (n.hash ≡ k.hash n.key) × (n.hash % size ≡ b) × (find n.key c ≡ none) × IsPlaced size b c

  hit-same : (q : K) (n : Node K V) → n.hash ≡ k.hash n.key → hit (k.hash q) q n ≡ same n.key q
  hit-same q n e = ground (arith, same_hash n.key q)

  module _ (size b : ℕ) where
    pub find-put_chain :
        (key q : K) (v : V) (c : Chain K V)
        → IsPlaced size b c
        → find q (put_chain (k.hash key) key v c).0 ≡ (if same key q then some v else find q c)
    unfolding find put_chain IsPlaced
    find-put_chain key q v [] p = ground (arith, same_hash key q)
    find-put_chain key q v (n ∷ c) p = ground (
      arith,
      hit-same key n p.0,
      hit-same q n p.0,
      same_congr n.key key q,
      same_congr_right n.key key q,
      find-put_chain key q v c p.3,
    )

    pub put_chain-new :
        (key : K) (v : V) (c : Chain K V)
        → (put_chain (k.hash key) key v c).1 ≡ not (is_some (find key c))
    unfolding find put_chain
    put_chain-new key v [] = refl
    put_chain-new key v (n ∷ c) = ground (arith, put_chain-new key v c)

    pub put_chain-IsPlaced :
        (key : K) (v : V) (c : Chain K V)
        → k.hash key % size ≡ b
        → IsPlaced size b c
        → IsPlaced size b (put_chain (k.hash key) key v c).0
    unfolding find put_chain IsPlaced
    put_chain-IsPlaced key v [] e p = (refl, e, refl, tt)
    put_chain-IsPlaced key v (n ∷ c) e p = elim (Bool-cases (hit (k.hash key) key n)) [
      | inl h ↦ rw h p
      | inr h ↦ rw h (
        p.0,
        p.1,
        ground
            (arith, hit-same key n p.0, same_symm n.key key, find-put_chain key n.key v c p.3, p.2),
        put_chain-IsPlaced key v c e p.3,
      )
    ]

    pub find_congr :
        (a q : K) (c : Chain K V) → IsPlaced size b c → same a q ≡ true → find a c ≡ find q c
    unfolding find IsPlaced
    find_congr a q [] p h = refl
    find_congr a q (n ∷ c) p h = ground (
      arith,
      hit-same a n p.0,
      hit-same q n p.0,
      same_congr_right n.key a q,
      find_congr a q c p.3,
    )

    pub remove_chain-found :
        (key : K) (c : Chain K V) → (remove_chain (k.hash key) key c).1 ≡ find key c
    unfolding find remove_chain
    remove_chain-found key [] = refl
    remove_chain-found key (n ∷ c) = ground (arith, remove_chain-found key c)

    pub find-remove_chain :
        (key q : K) (c : Chain K V)
        → IsPlaced size b c
        → find q (remove_chain (k.hash key) key c).0 ≡ (if same key q then none else find q c)
    unfolding find remove_chain IsPlaced
    find-remove_chain key q [] p = ground arith
    find-remove_chain key q (n ∷ c) p = ground (
      arith,
      hit-same key n p.0,
      hit-same q n p.0,
      same_congr n.key key q,
      same_congr_right n.key key q,
      find_congr n.key q c p.3,
      find-remove_chain key q c p.3,
      p.2,
    )

    pub remove_chain-IsPlaced :
        (key : K) (c : Chain K V)
        → IsPlaced size b c
        → IsPlaced size b (remove_chain (k.hash key) key c).0
    unfolding find remove_chain IsPlaced
    remove_chain-IsPlaced key [] p = tt
    remove_chain-IsPlaced key (n ∷ c) p = elim (Bool-cases (hit (k.hash key) key n)) [
      | inl h ↦ rw h p.3
      | inr h ↦ rw h (
        p.0,
        p.1,
        ground (arith, find-remove_chain key n.key c p.3, p.2),
        remove_chain-IsPlaced key c p.3,
      )
    ]
