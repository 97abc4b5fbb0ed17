-- ===== src/Vfs.antt =====
-- bootmgr/vfs/vfs.c and bootmgr/vfs/ramfs.c: nodes, the operations on them, paths and mounts. A
-- pointer to a node is its address in the heap, and a path or a name a list of characters without its
-- NUL. `size_t` has 32 bits. Chains of mounts and loops over a directory take fuel.
pub mod Create
pub mod Search
use saki_os.Base.{
  ℕ, zero, suc, ◌+◌, ◌-◌, ◌*◌, ◌/◌, ◌%◌, ◌^◌, Bool, true, false, not, ◌&&◌, Option, none, some,
  List, [], ◌∷◌, ◌++◌, ◌==◌, ltb, leb, if◌then◌else◌, Result, ok, fault, assertion, invalid,
  out_of_fuel, ◌>>=◌, ◌>>◌, assert, length, replicate,
}

-- `fs_op_t`, by its owner: the `empty` of vfs.c, `ramfs_op`, and those of other file systems
pub data Op : Type 0 where
  empty_op : Op
  ramfs_op : Op
  other_op : Op

-- `fs_node_t`; `dir` and `alloc_size` are the `ramfs_data_t` of a node of ramfs
pub record Node : Type 0 where
  pub name : List ℕ
  pub op : Op
  pub pointer : Option ℕ
  pub size : ℕ
  pub is_dir : Bool
  pub dir : List ℕ
  pub alloc_size : ℕ

pub record Heap : Type 0 where
  pub node_at : ℕ → Option Node
  pub next : ℕ

unfoldable pub deref : Heap → ℕ → Result Node
deref h a = elim (h.node_at a) [ none ↦ fault invalid | some n ↦ ok n ]

abbrev pub put : Heap → ℕ → Node → Heap
put h p n = record h { node_at = λ a. if a == p then some n else h.node_at a }

-- `malloc` of a node
abbrev pub alloc : Heap → Node → Heap
alloc h n = record {
  node_at = λ a. if a == h.next then some n else h.node_at a;
  next = suc (h.next);
}

-- `strcmp(a, b) == 0`
unfoldable pub same_name : List ℕ → List ℕ → Bool
same_name [] [] = true
same_name [] (c ∷ cs) = false
same_name (c ∷ cs) [] = false
same_name (c ∷ cs) (d ∷ ds) = c == d && same_name cs ds

unfoldable pub child_at : List ℕ → ℕ → Result (Option ℕ)
child_at [] index = fault invalid
child_at (c ∷ cs) zero = ok (some c)
child_at (c ∷ cs) (suc index) = child_at cs index

unfoldable pub ramfs_readdir : Heap → ℕ → ℕ → Result (Option ℕ)
unfolding child_at
ramfs_readdir h parent index = do
  n ← deref h parent
  assert (n.is_dir)
      >> (if leb (n.size) (index * 4 % 2 ^ 32) then ok none else child_at (n.dir) index)

-- `ensureSize`
abbrev pub ensure_size : Node → ℕ → Node
ensure_size n bytes =
    if ltb (n.alloc_size) bytes
    then record n { alloc_size = (bytes + 511) % 2 ^ 32 / 512 * 512 }
    else n

abbrev pub new_node : List ℕ → Bool → Node
new_node name is_dir = record {
  name = name;
  op = ramfs_op;
  pointer = none;
  size = 0;
  is_dir = is_dir;
  dir = [];
  alloc_size = 128;
}

-- `node->dir[index] = child;`; what stands between the end and a place behind it is not known
abbrev pub store_at : List ℕ → ℕ → ℕ → List ℕ
store_at [] zero child = child ∷ []
store_at [] (suc index) child = 0 ∷ store_at [] index child
store_at (c ∷ cs) zero child = child ∷ cs
store_at (c ∷ cs) (suc index) child = c ∷ store_at cs index child

-- `node->dir[parent->length / sizeof(size_t)] = ret; parent->length += sizeof(size_t);` A write
-- behind the allocated bytes is the fault `invalid`.
abbrev pub add_child : Node → ℕ → Result Node
add_child n child =
    if leb (n.size / 4 * 4 + 4) (n.alloc_size)
    then ok (record n { dir = store_at (n.dir) (n.size / 4) child; size = n.size + 4 })
    else fault invalid

unfoldable pub ramfs_create_node : Heap → ℕ → List ℕ → Bool → Result (ℕ × Heap)
ramfs_create_node h parent name is_dir = do
  let ret = h.next
  let h = alloc h (new_node name is_dir)
  n ← deref h parent
  assert (n.is_dir) >> (do n ← add_child (ensure_size n (n.size + 4)) ret; ok (ret, put h parent n))

-- `node->op->create` or `node->op->mkdir`, and the `assert(0)` where it is NULL
abbrev pub make_by : Op → Bool → Heap → ℕ → List ℕ → Result (ℕ × Heap)
make_by empty_op is_dir h node name = fault assertion
make_by ramfs_op is_dir h node name = ramfs_create_node h node name is_dir
make_by other_op is_dir h node name = fault assertion

unfoldable pub ramfs_create_fs : Heap → ℕ × Heap
ramfs_create_fs h = (h.next, alloc h (new_node (b'r' ∷ b'a' ∷ b'm' ∷ b'f' ∷ b's' ∷ []) true))

-- the node at the end of a chain of mounts
unfoldable pub resolve : ℕ → Heap → ℕ → Result ℕ
resolve zero h node = fault out_of_fuel
resolve (suc fuel) h node = do
  n ← deref h node
  elim (n.pointer) [ none ↦ ok node | some p ↦ resolve fuel h p ]

-- `other` is `readdir` of the file systems that are mounted; they have no `create` and `mkdir`.
module _ (other : Heap → ℕ → ℕ → Result (Option ℕ × Heap)) (fuel : ℕ) where
  unfoldable pub vfs_readdir : Heap → ℕ → ℕ → Result (Option ℕ × Heap)
  unfolding resolve ramfs_readdir
  vfs_readdir h node index = do
    node ← resolve fuel h node
    n ← deref h node
    elim (n.op) [
      | empty_op ↦ fault assertion
      | ramfs_op ↦ (do child ← ramfs_readdir h node index; ok (child, h))
      | other_op ↦ other h node index
    ]

  -- the loop of `vfs_finddir`; no file system here has a `finddir` of its own
  unfoldable pub find_loop : ℕ → Heap → ℕ → List ℕ → ℕ → Result (Option ℕ × Heap)
  unfolding vfs_readdir same_name
  find_loop zero h node name id = fault out_of_fuel
  find_loop (suc rounds) h node name id = do
    (child, h) ← vfs_readdir h node id
    elim child [
      | none ↦ ok (none, h)
      | some c ↦ (do
        n ← deref h c
        let rest = find_loop rounds h node name (id + 1)
        if same_name (n.name) name then ok (some c, h) else rest)
    ]

  unfoldable pub vfs_finddir : Heap → ℕ → List ℕ → Result (Option ℕ × Heap)
  unfolding find_loop resolve
  vfs_finddir h node name = do node ← resolve fuel h node; find_loop fuel h node name 0

  -- `vfs_create` and `vfs_mkdir`
  unfoldable pub vfs_make : Bool → Heap → ℕ → List ℕ → Result (ℕ × Heap)
  unfolding resolve ramfs_create_node
  vfs_make is_dir h node name = do
    node ← resolve fuel h node
    n ← deref h node
    make_by (n.op) is_dir h node name

  -- the last component of a path
  unfoldable pub lookup_last : Heap → ℕ → List ℕ → Result (Option ℕ × Heap)
  unfolding vfs_finddir vfs_make
  lookup_last h node path = do
    (ret, h) ← vfs_finddir h node path
    h ← elim ret [ none ↦ (do (_, h) ← vfs_make false h node path; ok h) | some _ ↦ ok h ]
    vfs_finddir h node path

  -- a component in front of a `/`: the directory, which is made where it is missing
  unfoldable pub lookup_dir : Heap → ℕ → List ℕ → Result (ℕ × Heap)
  unfolding vfs_finddir vfs_make
  lookup_dir h node path = do
    (cur, h) ← vfs_finddir h node path
    elim cur [ none ↦ vfs_make true h node path | some cur ↦ ok (cur, h) ]

  -- `lookup`, at the character behind `seen` of the present component
  unfoldable pub lookup_from : Heap → ℕ → List ℕ → List ℕ → Result (Option ℕ × Heap)
  unfolding lookup_last lookup_dir
  lookup_from h node [] [] = ok (some node, h)
  lookup_from h node (c ∷ seen) [] = lookup_last h node (c ∷ seen)
  lookup_from h node seen (c ∷ path) =
      if c == b'/'
      then (do (cur, h) ← lookup_dir h node seen; lookup_from h cur [] path)
      else lookup_from h node (seen ++ (c ∷ [])) path

  unfoldable pub vfs_lookup : Heap → ℕ → List ℕ → Result (ℕ × Heap)
  unfolding lookup_from resolve
  vfs_lookup h root [] = fault assertion
  vfs_lookup h root (c ∷ path) = assert (c == b'/') >> (do
    (node, h) ← lookup_from h root [] path
    node ← elim node [ none ↦ fault invalid | some node ↦ resolve fuel h node ]
    ok (node, h))

  unfoldable pub vfs_mount : Heap → ℕ → List ℕ → ℕ → Result Heap
  unfolding vfs_lookup
  vfs_mount h root path node = do
    (p, h) ← vfs_lookup h root path
    n ← deref h p
    elim (n.pointer) [
      | none ↦ ok (put h p (record n { pointer = some node }))
      | some _ ↦ fault assertion
    ]

  -- `fs` makes the file system on the node `source`.
  unfoldable pub vfs_mount_fs :
      Heap → ℕ → List ℕ → List ℕ → (ℕ → Heap → Result (ℕ × Heap)) → Result Heap
  unfolding vfs_lookup deref
  vfs_mount_fs h root target source fs = do
    (src, h) ← vfs_lookup h root source
    (dst, h) ← vfs_lookup h root target
    n ← deref h dst
    (mounted, h) ← elim (n.pointer) [ none ↦ fs src h | some _ ↦ fault assertion ]
    n ← deref h dst
    ok (put h dst (record n { pointer = some mounted }))
