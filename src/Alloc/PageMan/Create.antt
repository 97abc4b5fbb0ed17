-- ===== src/Alloc/PageMan/Create.antt =====
-- libs/mem-alloc/pageman.c: `pageman_freeBlock` and `pageman_create`.
use saki_os.Base.{
  ℕ, zero, suc, ◌+◌, ◌-◌, ◌*◌, ◌/◌, ◌%◌, ◌^◌, false, ◌&&◌, [], ◌==◌, leb, if◌then◌else◌, replicate,
  Result, ok, fault, out_of_fuel, ◌>>=◌, ◌>>◌, assert,
}
use saki_os.Base.Align.{align_to, align_down}
use saki_os.Alloc.PageMan.{PageMan, page_size, total_level, block_size, get_offset, pageman_free}

-- the manager, `off` and `size`
pub record Region : Type 0 where
  pub man : PageMan
  pub off : ℕ
  pub size : ℕ

-- `pageman_free` of a block at `off`, behind which the region goes on
unfoldable pub free_piece : ℕ → Region → Result Region
free_piece level r = do
  man ← pageman_free r.man ((r.man.base + r.off) % 2 ^ 32) level
  ok (record {
    man = man;
    off = (r.off + block_size level) % 2 ^ 32;
    size = r.size - block_size level;
  })

-- The first loop at level `total_level + 1 - rounds`: blocks that `off` is not aligned beyond
unfoldable pub free_ascending : ℕ → Region → Result Region
unfolding free_piece
free_ascending zero r = ok r
free_ascending (suc rounds) r = do
  let level = total_level - rounds
  r ←
      if r.off / block_size level % 2 == 1 && leb (block_size level) r.size
      then free_piece level r
      else ok r
  free_ascending rounds r

-- The second loop, which passes the level that the first one ended with. A region of less than 4 GiB
-- has at most four such blocks.
unfoldable pub free_whole : ℕ → Region → Result Region
free_whole zero r = fault out_of_fuel
free_whole (suc rounds) r =
    if leb (block_size total_level) r.size
    then (do
      man ← pageman_free r.man ((r.man.base + r.off) % 2 ^ 32) (total_level + 1)
      free_whole rounds (record {
        man = man;
        off = (r.off + block_size total_level) % 2 ^ 32;
        size = r.size - block_size total_level;
      }))
    else ok r

-- the third loop, from the level below `rounds` down
unfoldable pub free_descending : ℕ → Region → Result Region
unfolding free_piece
free_descending zero r = ok r
free_descending (suc level) r = do
  r ← if leb (block_size level) r.size then free_piece level r else ok r
  free_descending level r

unfoldable pub pageman_free_block : PageMan → ℕ → ℕ → Result PageMan
unfolding free_ascending free_whole free_descending
pageman_free_block man addr size = do
  r ← free_ascending (total_level + 1) (record {
    man = man;
    off = (align_to addr page_size + 2 ^ 32 - man.base) % 2 ^ 32;
    size = align_down size page_size;
  })
  r ← free_whole 5 r
  r ← free_descending total_level r
  ok r.man

-- `sizeof(pageman_t)`
abbrev pub pageman_bytes : ℕ
pageman_bytes = 228

-- `totalSize`: the bytes of the bitmaps of the levels from `total_level - rounds` on
unfoldable pub bitmap_bytes : ℕ → ℕ → ℕ → ℕ
bitmap_bytes zero base last_page = 0
bitmap_bytes (suc rounds) base last_page =
    align_to (get_offset base last_page (total_level - suc rounds) + 1) 8 / 8
    + bitmap_bytes rounds base last_page

-- the pages that the manager takes for itself
unfoldable pub page_cost : ℕ → ℕ → ℕ
unfolding bitmap_bytes get_offset
page_cost base limit =
    align_to
      (bitmap_bytes total_level base ((base + (limit + 2 ^ 32 - 1) * page_size) % 2 ^ 32)
        + pageman_bytes)
      page_size
    / page_size

-- The manager stands at `first_aval`, and the pages behind it are freed.
unfoldable pub pageman_create : ℕ → ℕ → ℕ → ℕ → Result PageMan
unfolding page_cost pageman_free_block
pageman_create base limit first_aval first_size = do
  let cost = page_cost base limit
  let man : PageMan = record {
    bitmaps = λ level i. false;
    lists = replicate total_level [];
    base = base;
    limit = limit;
    spare = 0;
  }
  assert (leb cost first_size)
      >> pageman_free_block man ((first_aval + page_size * cost) % 2 ^ 32)
          ((first_size - cost) * page_size % 2 ^ 32)
