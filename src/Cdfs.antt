-- ===== src/Cdfs.antt =====
-- bootmgr/vfs/cdfs.c: directory records and the files they name. `vfs_read` of the node below, the
-- CD-ROM drive, is a parameter over a state with a memory. The sectors of a directory are parsed in
-- the static `buffer`, whose address is a parameter too.
pub mod Files
use saki_os.Base.{
  ℕ, zero, suc, ◌+◌, ◌-◌, ◌*◌, ◌/◌, ◌%◌, ◌^◌, Bool, true, false, not, ◌&&◌, ◌||◌, Option, none,
  some, List, [], ◌∷◌, ◌++◌, ◌==◌, ltb, leb, if◌then◌else◌, Result, ok, fault, invalid, out_of_fuel,
  ◌>>=◌, ◌>>◌, assert, length,
}
use saki_os.CString.{Memory}
use saki_os.CString.Words.{word_at}

-- `dir_rec_t`, the fields that are used
pub record DirRec : Type 0 where
  pub rec_length : ℕ
  pub lba_l : ℕ
  pub size_l : ℕ
  pub flags : ℕ
  pub name_len : ℕ

-- the packed record at an address; the name stands behind it
unfoldable pub dir_rec_at : Memory → ℕ → DirRec
dir_rec_at m r = record {
  rec_length = m r;
  lba_l = word_at m (r + 2);
  size_l = word_at m (r + 10);
  flags = m (r + 25);
  name_len = m (r + 32);
}

-- `strndup`: the characters before the NUL, at most `n`
unfoldable pub strndup : Memory → ℕ → ℕ → List ℕ
strndup m p zero = []
strndup m p (suc n) = let rest = strndup m (p + 1) n in if m p == 0 then [] else m p ∷ rest

pub record Entry : Type 0 where
  pub name : List ℕ
  pub dirent : DirRec
  pub is_dir : Bool

-- The system use entries: the name that the last entry `NM` gives. `len_rest` is an `int` that may
-- fall below 0, where the loop ends as it does at 0. Fuel runs out at an entry of length 0.
unfoldable pub find_name : ℕ → Memory → ℕ → ℕ → Option (List ℕ) → Result (Option (List ℕ))
unfolding strndup
find_name zero m sue len_rest name = fault out_of_fuel
find_name (suc fuel) m sue len_rest name =
    let len = m (sue + 2) in
    let name' =
      if m sue == b'N' && m (sue + 1) == b'M'
      then some (strndup m (sue + 5) ((len + 2 ^ 32 - 5) % 2 ^ 32))
      else name in
    let rest = find_name fuel m (sue + len) (len_rest - len) name' in
    if ltb 3 len_rest then rest else ok name

-- `lenReal`: the record with its name, padded to an even length
abbrev pub len_real : DirRec → ℕ
len_real rec = (33 + rec.name_len) + (33 + rec.name_len) % 2

unfoldable pub entry_at : ℕ → Memory → ℕ → Result Entry
unfolding find_name dir_rec_at strndup
entry_at fuel m r = do
  let rec = dir_rec_at m r
  name ← find_name fuel m (r + len_real rec) (rec.rec_length - len_real rec) none
  ok (record {
    name = elim name [ none ↦ strndup m (r + 33) (rec.name_len) | some name ↦ name ];
    dirent = rec;
    is_dir = (rec.flags / 2) % 2 == 1;
  })

-- `*rec->fileName < 2`, where `char` is signed
abbrev pub is_skipped : Memory → ℕ → Bool
is_skipped m r = ltb (m (r + 33)) 2 || leb 128 (m (r + 33))

-- the loop over the records
unfoldable pub read_entries : ℕ → Memory → ℕ → Result (List Entry)
unfolding entry_at
read_entries zero m r = fault out_of_fuel
read_entries (suc fuel) m r =
    let rest = read_entries fuel m (r + m r) in
    if m r == 0
    then ok []
    else if is_skipped m r
    then rest
    else (do entry ← entry_at 256 m r; entries ← rest; ok (entry ∷ entries))

-- `cache[index]` of the entries with NULL behind the last
unfoldable pub cached : List Entry → ℕ → Result (Option Entry)
cached [] zero = ok none
cached [] (suc index) = fault invalid
cached (entry ∷ entries) zero = ok (some entry)
cached (entry ∷ entries) (suc index) = cached entries index

module _ {S : Type 0} (vfs_read : ℕ → ℕ → ℕ → S → Result (ℕ × S)) where
  -- `read`: the size served, and the state
  unfoldable pub cdfs_read : Entry → ℕ → ℕ → ℕ → S → Result (ℕ × S)
  cdfs_read file offset size buffer s =
      let size_l = file.dirent.size_l in
      let size' = if ltb size_l ((offset + size) % 2 ^ 64) then size_l - offset else size in
      assert (not (file.is_dir))
      >> (if ltb size_l offset
          then ok (0, s)
          else vfs_read ((file.dirent.lba_l * 2048 % 2 ^ 32 + offset) % 2 ^ 64) size' buffer s)

module _ {S : Type 0} (memory : S → Memory) (vfs_read : ℕ → ℕ → ℕ → S → Result (ℕ × S)) where
  -- what `readdir` puts in the cache of a directory, where it has none
  unfoldable pub load_cache : ℕ → Entry → S → Result (List Entry × S)
  unfolding read_entries
  load_cache buffer dir s = do
    (_, s) ←
        assert (leb (dir.dirent.size_l) 2048)
        >> vfs_read (dir.dirent.lba_l * 2048 % 2 ^ 32) 2048 buffer s
    entries ← read_entries 2049 (memory s) buffer
    assert (leb (length entries + 1) 128) >> ok (entries, s)

  -- `readdir`, with the cache of the directory
  unfoldable pub readdir :
      ℕ → Entry → Option (List Entry) → ℕ → S → Result (Option Entry × Option (List Entry) × S)
  unfolding load_cache cached
  readdir buffer dir cache index s = assert (dir.is_dir) >> (do
    (entries, s) ← elim cache [ none ↦ load_cache buffer dir s | some entries ↦ ok (entries, s) ]
    entry ← cached entries index
    ok (entry, some entries, s))

  -- `CDFS_create_fs`: the root directory, whose record is read to the address `dirent`
  unfoldable pub cdfs_create_fs : ℕ → S → Result (Entry × S)
  unfolding dir_rec_at
  cdfs_create_fs dirent s = do
    (_, s) ← vfs_read (0x8000 + 156) 34 dirent s
    ok (
      record {
        name = b'c' ∷ b'd' ∷ b'f' ∷ b's' ∷ [];
        dirent = dir_rec_at (memory s) dirent;
        is_dir = true;
      },
      s,
    )
