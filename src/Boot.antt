-- ===== src/Boot.antt =====
-- bootmgr/main.c: the choice of the memory that the page manager gets. The entries of the memory map
-- are a list; `base` and `limit`, the length, have 64 bits, and a `size_t` has 32.
pub mod Choice
use saki_os.Base.{
  ℕ, zero, suc, ◌+◌, ◌-◌, ◌*◌, ◌/◌, ◌%◌, ◌^◌, Bool, true, false, not, ◌&&◌, ◌||◌, Option, none,
  some, List, [], ◌∷◌, ◌==◌, ltb, leb, if◌then◌else◌, Result, ok, fault, assertion, ◌>>=◌,
}
use saki_os.Alloc.PageMan.{PageMan, page_size}
use saki_os.Alloc.PageMan.Create.{pageman_create}

pub record MemmapEntry : Type 0 where
  pub base : ℕ
  pub limit : ℕ
  pub type : ℕ

-- `AVAIL_MEM_START`
abbrev pub avail_mem_start : ℕ
avail_mem_start = 32 * 0x100000

-- The loop from the last entry down, on the entries in that order: `maxAddr`.
unfoldable pub max_addr : List MemmapEntry → ℕ
max_addr [] = 0
max_addr (entry ∷ entries) =
    let rest = max_addr entries in
    let limit = (entry.base + entry.limit) % 2 ^ 64 in
    if entry.type == 1 then (if ltb 0xFFFFFFFF limit then 0xFFFFFFFF else limit) else rest

-- What an entry offers, as `size_t`: the part from `avail_mem_start` on.
unfoldable pub usable : MemmapEntry → Option (ℕ × ℕ)
usable entry =
    if not (entry.type == 1) || ltb entry.base 0x100000 || ltb 0xFFFFFFFF entry.base
    then none
    else (let base = entry.base % 2 ^ 32 in
        let limit = entry.limit % 2 ^ 32 in
        if not (ltb base avail_mem_start)
        then some (base, limit)
        else if leb ((base + limit) % 2 ^ 32) avail_mem_start
        then none
        else some (avail_mem_start, (limit + 2 ^ 32 - (avail_mem_start - base)) % 2 ^ 32))

-- The loop over the entries, which ends with the first block that is usable.
unfoldable pub first_usable : List MemmapEntry → Option (ℕ × ℕ)
unfolding usable
first_usable [] = none
first_usable (entry ∷ entries) =
    let rest = first_usable entries in elim (usable entry) [ none ↦ rest | some r ↦ some r ]

-- `man`, for the memory map in reverse and in its order
unfoldable pub make_manager : List MemmapEntry → List MemmapEntry → Result PageMan
unfolding max_addr first_usable pageman_create
make_manager reversed entries = elim (first_usable entries) [
  | none ↦ fault assertion
  | some (base, limit) ↦ pageman_create 0 (max_addr reversed / page_size) base (limit / page_size)
]
