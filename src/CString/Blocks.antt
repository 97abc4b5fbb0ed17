-- ===== src/CString/Blocks.antt =====
-- libs/clib-independent/string.c: what the block operations leave at every address.
use saki_os.Base.{
  ℕ, zero, suc, ◌+◌, ◌-◌, ◌%◌, ◌^◌, ◌≤◌, ◌≡◌, ◌≢◌, ◌∙◌, Bool, ◌&&◌, ◌||◌, ltb, leb, if◌then◌else◌,
  arith, Bool-cases, inl, inr, ◌⊎◌,
}
use saki_os.CString.{Memory, store, copy_up, copy_down, memcpy, memmove, memset}

-- `a` lies in the block of `n` bytes at `p`
abbrev pub in_block : ℕ → ℕ → ℕ → Bool
in_block p n a = leb p a && ltb a (p + n)

-- Upwards a copy is exact unless the destination starts inside the source.
pub copy_up_lem :
    (count d s : ℕ) (m : Memory)
    → (d ≤ s) ⊎ (s + count ≤ d)
    → (a : ℕ) → copy_up count d s m a ≡ (if in_block d count a then m (s + (a - d)) else m a)
unfolding copy_up store
copy_up_lem zero d s m apart a = ground arith
copy_up_lem (suc count) d s m apart a =
    copy_up_lem count (d + 1) (s + 1) (store m d (m s)) (grind arith) a ∙ shift_up
  where
    shift_up :
        (if in_block (d + 1) count a
          then store m d (m s) (s + 1 + (a - (d + 1)))
          else store m d (m s) a)
        ≡ (if in_block d (suc count) a then m (s + (a - d)) else m a)
    shift_up = ground arith

-- Downwards `d` and `s` are the last addresses; the copy is exact where it moves data up.
pub copy_down_lem :
    (count d s : ℕ) (m : Memory)
    → count ≤ s
    → s ≤ d
    → (a : ℕ)
    → copy_down count d s m a
      ≡ (if leb (d + 1) (a + count) && leb a d then m (s - (d - a)) else m a)
unfolding copy_down store
copy_down_lem zero d s m room up a = ground arith
copy_down_lem (suc count) d s m room up a =
    copy_down_lem count (d - 1) (s - 1) (store m d (m s)) (omega arith) (omega arith) a ∙ shift_down
  where
    shift_down :
        (if leb (d - 1 + 1) (a + count) && leb a (d - 1)
          then store m d (m s) (s - 1 - (d - 1 - a))
          else store m d (m s) a)
        ≡ (if leb (d + 1) (a + suc count) && leb a d then m (s - (d - a)) else m a)
    shift_down = ground arith

-- `memcpy` copies exactly where the destination does not start inside the source.
pub memcpy_lem :
    (dest src count : ℕ) (m : Memory)
    → (dest ≤ src) ⊎ (src + count ≤ dest)
    → (a : ℕ)
    → memcpy dest src count m a ≡ (if in_block dest count a then m (src + (a - dest)) else m a)
unfolding memcpy
memcpy_lem dest src count m apart a = copy_up_lem count dest src m apart a

-- What `memmove` leaves at every address, on both branches. Where the destination starts in the
-- source or right behind it, the block written is the one at `dest + 1`.
pub memmove_lem :
    (dest src count : ℕ) (m : Memory) (a : ℕ)
    → memmove dest src count m a ≡ (
        if ltb dest src || ltb (src + count) dest
        then (if in_block dest count a then m (src + (a - dest)) else m a)
        else (if in_block (dest + 1) count a then m (src + (a - dest)) else m a))
unfolding memmove
memmove_lem dest src count m a = elim (Bool-cases (ltb dest src || ltb (src + count) dest)) [
  | inl e ↦ rw e (copy_up_lem count dest src m (grind arith) a)
  | inr e ↦ rw e (
      copy_down_lem count (dest + count) (src + count) m (omega arith) (grind arith) a
      ∙ (ground arith))
]

-- Where the destination starts inside the source or right behind it, `memmove` does not bring the
-- first byte of a block to its place, unless it stands there already.
pub memmove_overlap :
    (dest src count : ℕ) (m : Memory)
    → src ≤ dest
    → dest ≤ src + count
    → m dest ≢ m src
    → memmove dest src count m dest ≢ m src
memmove_overlap dest src count m lo hi differ =
    rw (memmove_lem dest src count m dest) (ground arith)

-- `memset` stores the byte at every address of the block, and nothing elsewhere.
pub memset_lem :
    (count dest val : ℕ) (m : Memory) (a : ℕ)
    → memset dest val count m a ≡ (if in_block dest count a then val % 2 ^ 8 else m a)
unfolding memset
memset_lem zero dest val m a = ground arith
memset_lem (suc count) dest val m a =
    ground (arith, memset_lem count (dest + 1) val (store m dest (val % 2 ^ 8)) a)
