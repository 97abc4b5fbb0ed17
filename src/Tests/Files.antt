-- ===== src/Tests/Files.antt =====
-- Runs of bootmgr/vfs/vfs.c and bootmgr/vfs/ramfs.c on a small tree.
use saki_os.Base.{
  ℕ, ◌≡◌, refl, true, false, Option, none, some, [], ◌∷◌, ◌==◌, if◌then◌else◌, Result, ok, fault,
  invalid, ◌>>=◌, arith,
}
use saki_os.Vfs.{
  Node, Heap, ramfs_op, deref, same_name, child_at, ramfs_readdir, ramfs_create_node, resolve,
  vfs_readdir, find_loop, vfs_finddir, vfs_make, lookup_last, lookup_dir, lookup_from, vfs_lookup,
  new_node,
}
use saki_os.Vfs.Search.{IsRamfsDir}
use saki_os.Vfs.Create.{vfs_finddir-vfs_make}

-- the root of a ramfs with the file "a"
abbrev root : Node
root = record {
  name = b'r' ∷ [];
  op = ramfs_op;
  pointer = none;
  size = 4;
  is_dir = true;
  dir = 1 ∷ [];
  alloc_size = 128;
}

abbrev tree : Heap
tree = record {
  node_at =
      λ a. if a == 0 then some root else if a == 1 then some (new_node (b'a' ∷ []) false) else none;
  next = 2;
}

abbrev other : Heap → ℕ → ℕ → Result (Option ℕ × Heap)
other h node index = fault invalid

root-IsRamfsDir : IsRamfsDir tree 0 root
unfolding deref
root-IsRamfsDir = record {
  here = refl;
  of_ramfs = refl;
  not_mounted = refl;
  directory = refl;
  listed = omega arith;
}

b_absent : vfs_finddir other 3 tree 0 (b'b' ∷ []) ≡ ok (none, tree)
unfolding vfs_finddir find_loop vfs_readdir ramfs_readdir child_at resolve deref same_name
b_absent = refl

vfs_finddir-vfs_make_example :
    (h' : Heap) × (vfs_make other 3 true tree 0 (b'b' ∷ []) ≡ ok (2, h'))
    × (vfs_finddir other 3 h' 0 (b'b' ∷ []) ≡ ok (some 2, h'))
    × (m : Node) × (deref h' 2 ≡ ok m)
    × (m.name ≡ b'b' ∷ [])
    × (m.is_dir ≡ true)
vfs_finddir-vfs_make_example =
    vfs_finddir-vfs_make other 2 tree 0 root (b'b' ∷ []) true root-IsRamfsDir refl (omega arith)
      b_absent

abbrev address : Result (ℕ × Heap) → Result ℕ
address r = do (node, h) ← r; ok node

-- "/x/y" makes the directory "x" and the file "y" in it.
lookup_made : address (vfs_lookup other 4 tree 0 (b'/' ∷ b'x' ∷ b'/' ∷ b'y' ∷ [])) ≡ ok 3
unfolding vfs_lookup lookup_from lookup_last lookup_dir vfs_make ramfs_create_node vfs_finddir
    find_loop vfs_readdir ramfs_readdir child_at resolve deref same_name
lookup_made = refl
