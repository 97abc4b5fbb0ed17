-- ===== src/Vfs/Create.antt =====
-- bootmgr/vfs/vfs.c and bootmgr/vfs/ramfs.c: a node that was made in a directory is found there.
use saki_os.Base.{
  ℕ, suc, ◌+◌, ◌*◌, ◌/◌, ◌%◌, ◌^◌, ◌≤◌, ◌<◌, ◌≡◌, ◌∙◌, refl, sym, ap, Bool, true, false, Option,
  none, some, List, [], ◌∷◌, ◌++◌, ◌==◌, ltb, if◌then◌else◌, Result, ok, fault, invalid, ◌>>=◌,
  ◌>>◌, assert, length, length-append, arith, Bool-cases, inl, inr, ==_refl, ==→eq, le→leb,
  ok-injective,
}
use saki_os.Vfs.{
  Node, Heap, deref, put, alloc, new_node, ensure_size, add_child, store_at, ramfs_create_node,
  make_by, find_loop, vfs_finddir, vfs_make,
}
use saki_os.Vfs.Search.{IsRamfsDir, resolve-here, find_loop-added}

keeps :
    {A : Type 0} (f : Node → A) (b : Bool) (x y : Node) → f x ≡ f y → f (if b then x else y) ≡ f y
keeps f true x y e = e
keeps f false x y e = refl

deref-some : (h : Heap) (a : ℕ) (n : Node) → deref h a ≡ ok n → h.node_at a ≡ some n
unfolding deref
deref-some h a n e = go (h.node_at a) e
  where
    go :
        (o : Option Node)
        → elim o as (λ _. Result Node) [ none ↦ fault invalid | some n ↦ ok n ] ≡ ok n
        → o ≡ some n
    go none e = absurd (ground (arith, e))
    go (some x) e = ap some (ok-injective e)

some-deref : (h : Heap) (a : ℕ) (n : Node) → h.node_at a ≡ some n → deref h a ≡ ok n
unfolding deref
some-deref h a n e =
    ap (λ o. elim o as (λ _. Result Node) [ none ↦ fault invalid | some n ↦ ok n ]) e

store_at-end : (cs : List ℕ) (c : ℕ) → store_at cs (length cs) c ≡ cs ++ (c ∷ [])
store_at-end [] c = refl
store_at-end (d ∷ cs) c = ap (λ t. d ∷ t) (store_at-end cs c)

module _ (h : Heap) (d : ℕ) (n : Node) (name : List ℕ) (is_dir : Bool) (r : IsRamfsDir h d n)
    (fresh : h.node_at (h.next) ≡ none) where
  abbrev sized : Node
  sized = ensure_size n (n.size + 4)

  abbrev grown : Node
  grown = record sized { dir = sized.dir ++ (h.next ∷ []); size = sized.size + 4 }

  abbrev after : Heap
  after = put (alloc h (new_node name is_dir)) d grown

  kept :
      {A : Type 0} (f : Node → A)
      → f (record n { alloc_size = (n.size + 4 + 511) % 2 ^ 32 / 512 * 512 }) ≡ f n
      → f (ensure_size n (n.size + 4)) ≡ f n
  kept f e = keeps f (ltb (n.alloc_size) (n.size + 4)) _ n e

  in_use : (a : ℕ) (x : Node) → deref h a ≡ ok x → (a == h.next) ≡ false
  in_use a x e = elim (Bool-cases (a == h.next)) [
    | inl same ↦
        absurd (never (sym (deref-some h a x e) ∙ ap (h.node_at) (==→eq a (h.next) same) ∙ fresh))
    | inr other ↦ other
  ]
    where
      never : some x ≡ none → ⊥
      never e = ground (arith, e)

  at_new : (d == h.next) ≡ false
  at_new = in_use d n (r.here)

  new_at : (h.next == d) ≡ false
  new_at = ground (arith, at_new)

  here_before : deref (alloc h (new_node name is_dir)) d ≡ ok n
  here_before =
      some-deref (alloc h (new_node name is_dir)) d n (rw (at_new) (deref-some h d n (r.here)))

  here_after : deref after d ≡ ok grown
  here_after = some-deref after d grown (rw (==_refl d) refl)

  new_after : deref after (h.next) ≡ ok (new_node name is_dir)
  new_after = some-deref after (h.next) (new_node name is_dir) (rw (new_at, ==_refl (h.next)) refl)

  after-IsRamfsDir : IsRamfsDir after d grown
  after-IsRamfsDir = record {
    here = here_after;
    of_ramfs = kept (λ n. n.op) refl ∙ r.of_ramfs;
    not_mounted = kept (λ n. n.pointer) refl ∙ r.not_mounted;
    directory = kept (λ n. n.is_dir) refl ∙ r.directory;
    listed = omega (
      arith,
      kept (λ n. n.size) refl,
      r.listed,
      length-append (sized.dir) (h.next ∷ []),
      ap length (kept (λ n. n.dir) refl),
    );
  }

  -- The block has been made large enough.
  allocated : n.size + 515 < 2 ^ 32 → n.size + 4 ≤ sized.alloc_size
  allocated room = elim (Bool-cases (ltb (n.alloc_size) (n.size + 4))) [
    | inl small ↦ rw small (omega (arith, room))
    | inr large ↦ rw large (ground (arith, large))
  ]

  add_child-grown : n.size + 515 < 2 ^ 32 → add_child sized (h.next) ≡ ok grown
  add_child-grown room =
      let size = kept (λ n. n.size) refl in
      let place : sized.size / 4 ≡ length (sized.dir) =
        omega (arith, size, r.listed, ap length (kept (λ n. n.dir) refl)) in
      let fits : sized.size / 4 * 4 + 4 ≤ sized.alloc_size =
        omega (arith, allocated room, size, r.listed) in
      rw (le→leb (sized.size / 4 * 4 + 4) (sized.alloc_size) fits) (
        ap (λ (cs : List ℕ). ok (record sized { dir = cs; size = sized.size + 4 }))
          (ap (λ i. store_at (sized.dir) i (h.next)) place ∙ store_at-end (sized.dir) (h.next)))

  create-after : n.size + 515 < 2 ^ 32 → ramfs_create_node h d name is_dir ≡ ok (h.next, after)
  unfolding ramfs_create_node
  create-after room =
      ap
        (λ (q : Result Node). q >>= λ n.
          assert (n.is_dir)
          >> (add_child (ensure_size n (n.size + 4)) (h.next) >>= λ n.
              ok (h.next, put (alloc h (new_node name is_dir)) d n)))
        here_before
      ∙ ap
          (λ b.
            assert b
            >> (add_child sized (h.next) >>= λ n.
                ok (h.next, put (alloc h (new_node name is_dir)) d n)))
          (r.directory)
      ∙ ap (λ (q : Result Node). q >>= λ n. ok (h.next, put (alloc h (new_node name is_dir)) d n))
          (add_child-grown room)

  names_after :
      (a : ℕ) (x : Node)
      → deref h a ≡ ok x
      → (x' : Node) × (deref after a ≡ ok x') × (x'.name ≡ x.name)
  names_after a x e = elim (Bool-cases (a == d)) [
    | inl same ↦ (
      grown,
      ap (deref after) (==→eq a d same) ∙ here_after,
      kept (λ n. n.name) refl
          ∙ ap (λ n. n.name)
              (ok-injective (sym (r.here) ∙ ap (deref h) (sym (==→eq a d same)) ∙ e)),
    )
    | inr other ↦ (x, some-deref after a x (rw (other, in_use a x e) (deref-some h a x e)), refl)
  ]

module _ (other : Heap → ℕ → ℕ → Result (Option ℕ × Heap)) (fuel : ℕ) where
  vfs_finddir-find_loop :
      (h : Heap) (d : ℕ) (n : Node) (name : List ℕ)
      → IsRamfsDir h d n
      → vfs_finddir other (suc fuel) h d name ≡ find_loop other (suc fuel) (suc fuel) h d name 0
  unfolding vfs_finddir
  vfs_finddir-find_loop h d n name r =
      ap (λ (r : Result ℕ). r >>= λ node. find_loop other (suc fuel) (suc fuel) h node name 0)
        (resolve-here other fuel h d n r)

  vfs_make-made :
      (h : Heap) (d : ℕ) (n : Node) (name : List ℕ) (is_dir : Bool) (r : IsRamfsDir h d n)
      (fresh : h.node_at (h.next) ≡ none)
      → n.size + 515 < 2 ^ 32
      → vfs_make other (suc fuel) is_dir h d name ≡ ok (h.next, after h d n name is_dir r fresh)
  unfolding vfs_make
  vfs_make-made h d n name is_dir r fresh room =
      ap (λ (q : Result ℕ). q >>= λ node. deref h node >>= λ n. make_by (n.op) is_dir h node name)
        (resolve-here other fuel h d n r)
      ∙ ap (λ (q : Result Node). q >>= λ n. make_by (n.op) is_dir h d name) (r.here)
      ∙ ap (λ o. make_by o is_dir h d name) (r.of_ramfs)
      ∙ create-after h d n name is_dir r fresh room

-- In a directory of ramfs without a node of this name, `vfs_create` makes a file and `vfs_mkdir` a
-- directory of the name, and `vfs_finddir` then finds it. Its place in the block of the directory is
-- allocated. Nothing is mounted on the directory, the next address is not in use, and the directory's
-- size stays 515 below 2^32.
pub vfs_finddir-vfs_make :
    (other : Heap → ℕ → ℕ → Result (Option ℕ × Heap)) (fuel : ℕ) (h : Heap) (d : ℕ) (n : Node)
    (name : List ℕ) (is_dir : Bool)
    → IsRamfsDir h d n
    → h.node_at (h.next) ≡ none
    → n.size + 515 < 2 ^ 32
    → vfs_finddir other (suc fuel) h d name ≡ ok (none, h)
    → (h' : Heap) × (vfs_make other (suc fuel) is_dir h d name ≡ ok (h.next, h'))
      × (vfs_finddir other (suc fuel) h' d name ≡ ok (some (h.next), h'))
      × (m : Node) × (deref h' (h.next) ≡ ok m)
      × (m.name ≡ name)
      × (m.is_dir ≡ is_dir)
vfs_finddir-vfs_make other fuel h d n name is_dir r fresh room absent = (
  h',
  vfs_make-made other fuel h d n name is_dir r fresh room,
  vfs_finddir-find_loop other fuel h' d (grown h d n name is_dir r fresh) name r'
      ∙ find_loop-added other fuel h h' d (h.next) n (grown h d n name is_dir r fresh)
          (new_node name is_dir) name r r'
          (ap (λ cs. cs ++ (h.next ∷ [])) (kept h d n name is_dir r fresh (λ n. n.dir) refl))
          (new_after h d n name is_dir r fresh) refl (omega (arith, room, r.listed))
          (names_after h d n name is_dir r fresh) (suc fuel) 0 (omega arith)
          (sym (vfs_finddir-find_loop other fuel h d n name r) ∙ absent),
  new_node name is_dir,
  new_after h d n name is_dir r fresh,
  refl,
  refl,
)
  where
    h' : Heap
    h' = after h d n name is_dir r fresh

    r' : IsRamfsDir h' d (grown h d n name is_dir r fresh)
    r' = after-IsRamfsDir h d n name is_dir r fresh
