-- ===== src/DataStruct/Hashmap/Laws.antt =====
-- libs/data-struct/hashmap.c as a finite map from keys, up to `compare`, to payloads.
use saki_os.Base.{
  ℕ, ◌%◌, ◌<◌, ◌≡◌, refl, ap, ◌∙◌, false, not, [], Option, none, some, arith, ◌==◌, if◌then◌else◌,
  length, get_or, set, length-set, length-replicate, get_or-set, get_or-replicate, ok, ◌>>=◌,
  Bool-cases, inl, inr, ==→eq,
}
use saki_os.DataStruct.Hashmap.{
  Chain, Hashmap, or_null, bucket, put_chain, get_chain, remove_chain, hashmap_new, hashmap_put,
  hashmap_get, hashmap_remove,
}
use saki_os.DataStruct.Hashmap.Chain.{
  is_some, find, IsPlaced, find-put_chain, put_chain-new, put_chain-IsPlaced, remove_chain-found,
  find-remove_chain, remove_chain-IsPlaced,
}
use saki_os.DataStruct.Key.{Key, same, same_hash}

module _ {ℓ} {K V : Type ℓ} ⦃k : Key K⦄ where
  -- The table is as wide as `size` says, and every node stands in the bucket of its hash, once.
  pub record IsValid (hm : Hashmap K V) : Type ℓ where
    pub pos : 0 < hm.size
    pub width : length hm.node ≡ hm.size
    pub placed : (b : ℕ) → IsPlaced hm.size b (get_or hm.node b [])

  abbrev pub home : Hashmap K V → K → ℕ
  home hm q = k.hash q % hm.size

  -- what the table stands for
  unfoldable pub view : Hashmap K V → K → Option V
  view hm q = find q (get_or hm.node (home hm q) [])

  bucket-home : {hm : Hashmap K V} (q : K) → IsValid hm → bucket hm q ≡ ok (home hm q)
  unfolding bucket
  bucket-home q v = ground (arith, v.pos)

  pub new-view : (size : ℕ) (q : K) → view (hashmap_new {K = K} {V = V} size) q ≡ none
  unfolding view hashmap_new find get_chain
  new-view size q = rw (get_or-replicate {A = Chain K V} size (k.hash q % size) []) refl

  pub new-IsValid : (size : ℕ) → 0 < size → IsValid (hashmap_new {K = K} {V = V} size)
  unfolding hashmap_new IsPlaced
  new-IsValid size h = record {
    pos = h;
    width = length-replicate size [];
    placed = λ b. rw (get_or-replicate {A = Chain K V} size b []) tt;
  }

  -- On a valid table `hashmap_get` returns what the key is bound to, or `null`.
  pub get-view :
      (null : V) {hm : Hashmap K V} (q : K)
      → IsValid hm
      → hashmap_get null hm q ≡ ok (or_null null (view hm q))
  unfolding hashmap_get view find
  get-view null {hm} q v = rw (bucket-home q v)

  module _ {hm : Hashmap K V} (valid : IsValid hm) (key : K) where
    home-lt : home hm key < length hm.node
    home-lt = omega (arith, valid.pos, valid.width)

    abbrev stored : Chain K V → Hashmap K V
    stored c = record hm { node = set hm.node (home hm key) c }

    stored-IsValid : (c : Chain K V) → IsPlaced hm.size (home hm key) c → IsValid (stored c)
    stored-IsValid c p = record {
      pos = valid.pos;
      width = length-set hm.node (home hm key) c ∙ valid.width;
      placed = λ b.
          rw (get_or-set hm.node (home hm key) b c [] home-lt)
            (elim (Bool-cases (b == home hm key)) [
              | inl e ↦ rw e (rw (==→eq b (home hm key) e) p)
              | inr e ↦ rw e (valid.placed b)
            ]);
    }

    differ : (q : K) → (home hm q == home hm key) ≡ false → same key q ≡ false
    differ q e = elim (Bool-cases (same key q)) [
      | inl h ↦ ground (arith, ap (λ (n : ℕ). n % hm.size) (same_hash key q h))
      | inr h ↦ h
    ]

    stored-view :
        (c : Chain K V) (o : Option V)
        → ((q : K)
            → find q c ≡ (if same key q then o else find q (get_or hm.node (home hm key) [])))
        → (q : K) → view (stored c) q ≡ (if same key q then o else view hm q)
    unfolding view
    stored-view c o h q =
        rw (get_or-set hm.node (home hm key) (home hm q) c [] home-lt)
          (elim (Bool-cases (home hm q == home hm key)) [
            | inl e ↦ rw (e, ==→eq (home hm q) (home hm key) e) (h q)
            | inr e ↦ rw (e, differ q e)
          ])

    -- On a valid table `hashmap_put` does not fail. It returns whether the key was unbound; the table is
    -- valid again, every key that is the same up to the comparator is bound to the new value, and
    -- every other lookup is as before.
    pub put-view :
        (v : V)
        → (hm' : Hashmap K V) × (hashmap_put hm key v ≡ ok (hm', not (is_some (view hm key))))
          × IsValid hm'
          × ((q : K) → view hm' q ≡ (if same key q then some v else view hm q))
    unfolding hashmap_put view
    put-view v =
        let c = get_or hm.node (home hm key) [] in
        let p = valid.placed (home hm key) in
        let c' = (put_chain (k.hash key) key v c).0 in
        (
          stored c',
          rw (bucket-home key valid, ◌>>=◌, put_chain-new hm.size (home hm key) key v c),
          stored-IsValid c' (put_chain-IsPlaced hm.size (home hm key) key v c refl p),
          stored-view c' (some v) (λ q. find-put_chain hm.size (home hm key) key q v c p),
        )

    -- On a valid table `hashmap_remove` does not fail. It returns what the key was bound to, or `null`;
    -- the table is valid again, the key is unbound, and every other lookup is as before.
    pub remove-view :
        (null : V)
        → (hm' : Hashmap K V) × (hashmap_remove null hm key ≡ ok (hm', or_null null (view hm key)))
          × IsValid hm'
          × ((q : K) → view hm' q ≡ (if same key q then none else view hm q))
    unfolding hashmap_remove view
    remove-view null =
        let c = get_or hm.node (home hm key) [] in
        let p = valid.placed (home hm key) in
        let c' = (remove_chain (k.hash key) key c).0 in
        (
          stored c',
          rw (bucket-home key valid, ◌>>=◌, remove_chain-found hm.size (home hm key) key c),
          stored-IsValid c' (remove_chain-IsPlaced hm.size (home hm key) key c p),
          stored-view c' none (λ q. find-remove_chain hm.size (home hm key) key q c p),
        )
