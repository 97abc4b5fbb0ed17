-- ===== src/Alloc/PageMan.antt =====
-- libs/mem-alloc/pageman.c with include/data-struct/bitmap.h and include/data-struct/list.h. The lists
-- that run through the free blocks are lists of addresses, first element first, and the bitmap of a
-- level is a function from its index to the bit. A `size_t` has 32 bits.
pub mod Buddy
pub mod Cover
pub mod Conserve
pub mod Marks
pub mod Returns
pub mod Release
pub mod Create
pub mod Cost
pub mod Blocks
pub mod Moves
pub mod Rises
pub mod Region
pub mod Alloc
use Prim.Native.Nat.{bit_and, bit_xor}
use saki_os.Base.{
  ℕ, zero, suc, ◌+◌, ◌-◌, ◌*◌, ◌/◌, ◌%◌, ◌^◌, Bool, true, false, not, ◌&&◌, List, [], ◌∷◌, Option,
  none, some, ◌==◌, if◌then◌else◌, get_or, set, Result, ok, fault, invalid, ◌>>=◌,
}

abbrev pub page_size : ℕ
page_size = 4096

abbrev pub total_level : ℕ
total_level = 18

-- `PAGE_SIZE << size`
abbrev pub block_size : ℕ → ℕ
block_size level = page_size * 2 ^ level

pub record PageMan : Type 0 where
  pub bitmaps : ℕ → ℕ → Bool
  pub lists : List (List ℕ)
  pub base : ℕ
  pub limit : ℕ
  pub spare : ℕ

-- `(size_t)addr - (size_t)base`
abbrev pub offset : ℕ → ℕ → ℕ
offset base addr = (addr + 2 ^ 32 - base) % 2 ^ 32

unfoldable pub get_offset : ℕ → ℕ → ℕ → ℕ
get_offset base addr level = offset base addr / page_size / 2 ^ (level + 1)

unfoldable pub get_buddy : ℕ → ℕ → ℕ → ℕ
get_buddy base addr level = (bit_xor (offset base addr) (block_size level) + base) % 2 ^ 32

-- `off & ~mask` clears in `off` the bits that it shares with `mask`.
unfoldable pub get_super : ℕ → ℕ → ℕ → ℕ
get_super base addr level =
    let off = offset base addr in (off - bit_and off (block_size level) + base) % 2 ^ 32

-- `bitmap_switch`: the bitmaps after it; it returns whether the bit was set before.
abbrev pub bitmap_switch : (ℕ → ℕ → Bool) → ℕ → ℕ → ℕ → ℕ → Bool
bitmap_switch bitmaps level index l i =
    if l == level && i == index then not (bitmaps l i) else bitmaps l i

-- `list_remove` at an address that its list does not have is undefined.
unfoldable pub list_remove : ℕ → List ℕ → Result (List ℕ)
list_remove a [] = fault invalid
list_remove a (b ∷ l) =
    let rest = list_remove a l in if a == b then ok l else (do l' ← rest; ok (b ∷ l'))

-- `pageman_free` at level `total_level - height`; a list behind the last level is none.
unfoldable pub free_up : ℕ → PageMan → ℕ → ℕ → Result PageMan
unfolding get_offset get_buddy get_super list_remove
free_up zero bpm addr size = fault invalid
free_up (suc height) bpm addr size =
    let index = get_offset bpm.base addr size in
    let bitmaps = bitmap_switch bpm.bitmaps size index in
    let list = get_or bpm.lists size [] in
    if bpm.bitmaps size index
    then (do
      list' ← list_remove (get_buddy bpm.base addr size) list
      free_up height
          (record bpm {
            bitmaps = bitmaps;
            spare = (bpm.spare + 2 ^ 32 - block_size size) % 2 ^ 32;
            lists = set bpm.lists size list';
          })
          (get_super bpm.base addr size) (size + 1))
    else ok (record bpm {
      bitmaps = bitmaps;
      spare = (bpm.spare + block_size size) % 2 ^ 32;
      lists = set bpm.lists size (addr ∷ list);
    })

unfoldable pub pageman_free : PageMan → ℕ → ℕ → Result PageMan
unfolding free_up
pageman_free bpm addr size = free_up (total_level - size) bpm addr size

-- behind the recursive call in `pageman_alloc`: the buddy of the half that is kept is freed
abbrev pub slice : ℕ → Option ℕ × PageMan → Result (Option ℕ × PageMan)
slice size (none, bpm) = ok (none, bpm)
slice size (some addr, bpm) = do
  bpm' ← pageman_free bpm (get_buddy bpm.base addr size) size
  ok (some addr, bpm')

-- `pageman_alloc` at level `total_level - height`; `none` is NULL
unfoldable pub alloc_down : ℕ → PageMan → ℕ → Result (Option ℕ × PageMan)
unfolding get_offset get_buddy pageman_free
alloc_down zero bpm size = ok (none, bpm)
alloc_down (suc height) bpm size = elim (get_or bpm.lists size []) [
  | [] ↦ alloc_down height bpm (size + 1) >>= slice size
  | first ∷ rest ↦ ok (
    some first,
    record bpm {
      bitmaps = bitmap_switch bpm.bitmaps size (get_offset bpm.base first size);
      spare = (bpm.spare + 2 ^ 32 - block_size size) % 2 ^ 32;
      lists = set bpm.lists size rest;
    },
  )
]

unfoldable pub pageman_alloc : PageMan → ℕ → Result (Option ℕ × PageMan)
unfolding alloc_down
pageman_alloc bpm size = alloc_down (total_level - size) bpm size

unfoldable pub pageman_spare : PageMan → ℕ
pageman_spare bpm = bpm.spare
