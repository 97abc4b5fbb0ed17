-- ===== src/Vfs/Search.antt =====
-- bootmgr/vfs/vfs.c and bootmgr/vfs/ramfs.c: the search of a directory with a node added at its end.
use saki_os.Base.{
  ℕ, zero, suc, ◌+◌, ◌*◌, ◌%◌, ◌^◌, ◌≤◌, ◌<◌, ◌≡◌, ◌∙◌, refl, sym, ap, true, false, Option, none,
  some, List, [], ◌∷◌, ◌++◌, ◌==◌, leb, if◌then◌else◌, Result, ok, ◌>>=◌, length, length-append,
  arith, Bool-cases, inl, inr, bind-ok, lt→leb, le_cases,
}
use saki_os.Vfs.{
  ramfs_op, Node, Heap, deref, same_name, child_at, ramfs_readdir, resolve, vfs_readdir, find_loop,
}

same_name_refl : (name : List ℕ) → same_name name name ≡ true
unfolding same_name
same_name_refl [] = refl
same_name_refl (c ∷ cs) = ground (arith, same_name_refl cs)

-- A directory of ramfs on which nothing is mounted, with four bytes for each of its nodes.
pub record IsRamfsDir (h : Heap) (d : ℕ) (n : Node) : Type 0 where
  pub here : deref h d ≡ ok n
  pub of_ramfs : n.op ≡ ramfs_op
  pub not_mounted : n.pointer ≡ none
  pub directory : n.is_dir ≡ true
  pub listed : n.size ≡ 4 * length (n.dir)

child_at-append :
    (cs : List ℕ) (c i : ℕ)
    → child_at (cs ++ (c ∷ [])) i ≡ (if i == length cs then ok (some c) else child_at cs i)
unfolding child_at
child_at-append [] c zero = refl
child_at-append [] c (suc i) = ground arith
child_at-append (d ∷ cs) c zero = ground arith
child_at-append (d ∷ cs) c (suc i) = child_at-append cs c i ∙ ground arith

module _ (other : Heap → ℕ → ℕ → Result (Option ℕ × Heap)) (fuel : ℕ) where
  pub resolve-here :
      (h : Heap) (d : ℕ) (n : Node) → IsRamfsDir h d n → resolve (suc fuel) h d ≡ ok d
  unfolding resolve
  resolve-here h d n r = rw (r.here, r.not_mounted) refl

  vfs_readdir-child :
      (h : Heap) (d i : ℕ) (n : Node)
      → IsRamfsDir h d n
      → 4 * i < 2 ^ 32
      → vfs_readdir other (suc fuel) h d i
        ≡ (if leb (length (n.dir)) i then ok (none, h) else (do c ← child_at (n.dir) i; ok (c, h)))
  unfolding vfs_readdir ramfs_readdir
  vfs_readdir-child h d i n r k =
      rw (resolve-here h d n r, r.here, r.of_ramfs)
        (rw (r.here, r.directory, r.listed)
          (elim (Bool-cases (leb (length (n.dir)) i)) [
            | inl e ↦ rw (e, past e) refl
            | inr e ↦ rw (e, inside e) refl
          ]))
    where
      past : leb (length (n.dir)) i ≡ true → leb (4 * length (n.dir)) (i * 4 % 2 ^ 32) ≡ true
      past e = ground (arith, e)

      inside : leb (length (n.dir)) i ≡ false → leb (4 * length (n.dir)) (i * 4 % 2 ^ 32) ≡ false
      inside e = ground (arith, e)

  -- one round of the search, at a child
  find_loop-child :
      (h : Heap) (d : ℕ) (n : Node)
      → IsRamfsDir h d n
      → (rounds i a : ℕ) (name : List ℕ) → child_at (n.dir) i ≡ ok (some a)
      → i < length (n.dir)
      → 4 * i < 2 ^ 32
      → find_loop other (suc fuel) (suc rounds) h d name i ≡ (do
        x ← deref h a
        if same_name (x.name) name
            then ok (some a, h)
            else find_loop other (suc fuel) rounds h d name (i + 1))
  unfolding find_loop
  find_loop-child h d n r rounds i a name e k w =
      rw (vfs_readdir-child h d i n r w, lt→leb (length (n.dir)) i k, e) refl

  module _ (h h' : Heap) (d c : ℕ) (n n' m : Node) (name : List ℕ) (r : IsRamfsDir h d n)
      (r' : IsRamfsDir h' d n') (added : n'.dir ≡ n.dir ++ (c ∷ [])) (new : deref h' c ≡ ok m)
      (named : m.name ≡ name) (room : 4 * length (n.dir) + 4 < 2 ^ 32)
      (names : (a : ℕ) (x : Node)
        → deref h a ≡ ok x
        → (x' : Node) × (deref h' a ≡ ok x') × (x'.name ≡ x.name)) where
    child' :
        (i : ℕ)
        → child_at (n'.dir) i ≡ (if i == length (n.dir) then ok (some c) else child_at (n.dir) i)
    child' i = ap (λ cs. child_at cs i) added ∙ child_at-append (n.dir) c i

    longer : length (n'.dir) ≡ suc (length (n.dir))
    longer = ap length added ∙ omega (arith, length-append (n.dir) (c ∷ []))

    at_end :
        (rounds i : ℕ)
        → i ≡ length (n.dir)
        → find_loop other (suc fuel) (suc rounds) h' d name i ≡ ok (some c, h')
    at_end rounds i e =
        find_loop-child h' d n' r' rounds i c name (child' i ∙ ground (arith, e))
          (omega (arith, e, longer)) (omega (arith, e))
        ∙ rw (new, named, same_name_refl name) refl

    at_child :
        (rounds i a : ℕ)
        → i < length (n.dir)
        → child_at (n.dir) i ≡ ok (some a)
        → find_loop other (suc fuel) (suc rounds) h d name i ≡ ok (none, h)
        → (find_loop other (suc fuel) rounds h d name (i + 1) ≡ ok (none, h)
            → find_loop other (suc fuel) rounds h' d name (i + 1) ≡ ok (some c, h'))
        → find_loop other (suc fuel) (suc rounds) h' d name i ≡ ok (some c, h')
    at_child rounds i a k e run ih =
        let (x, here, rest) =
          bind-ok (deref h a) _
            (sym (find_loop-child h d n r rounds i a name e k (omega arith)) ∙ run) in
        let (x', here', same) = names a x here in
        find_loop-child h' d n' r' rounds i a name (child' i ∙ ground (arith, e))
          (omega (arith, longer)) (omega arith)
        ∙ rw (here', same)
            (elim (Bool-cases (same_name (x.name) name)) [
              | inl found ↦ absurd (ground (arith, rest, found))
              | inr other ↦ rw (other) (ih (ground (arith, rest, other)))
            ])

    child_here : (cs : List ℕ) (i : ℕ) → i < length cs → (a : ℕ) × (child_at cs i ≡ ok (some a))
    unfolding child_at
    child_here [] i k = absurd (omega arith)
    child_here (a ∷ cs) zero k = (a, refl)
    child_here (a ∷ cs) (suc i) k = child_here cs i (omega arith)

    never :
        (i : ℕ)
        → find_loop other (suc fuel) zero h d name i ≡ ok (none, h)
        → find_loop other (suc fuel) zero h' d name i ≡ ok (some c, h')
    unfolding find_loop
    never i e = absurd (ground (arith, e))

    -- The search that came to the end of the directory comes to the node added there.
    pub find_loop-added :
        (rounds i : ℕ)
        → i ≤ length (n.dir)
        → find_loop other (suc fuel) rounds h d name i ≡ ok (none, h)
        → find_loop other (suc fuel) rounds h' d name i ≡ ok (some c, h')
    find_loop-added zero i k e = never i e
    find_loop-added (suc rounds) i k e = elim (le_cases i (length (n.dir))) [
      | inl inside ↦
          (let (a, here) = child_here (n.dir) i inside in
            at_child rounds i a inside here e (find_loop-added rounds (i + 1) (omega arith)))
      | inr end ↦ at_end rounds i (omega arith)
    ]
