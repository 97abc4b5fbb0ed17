-- ===== src/Alloc/PageMan/Cost.antt =====
-- libs/mem-alloc/pageman.c: how many pages the manager takes for itself.
use native.Mathlib.Nat.{div-le_self}
use saki_os.Base.{
  ℕ, zero, suc, ◌+◌, ◌-◌, ◌*◌, ◌/◌, ◌%◌, ◌^◌, ◌≤◌, ◌<◌, ◌≡◌, ◌∙◌, refl, ap, ap₂, arith,
}
use saki_os.Base.Align.{align_to}
use saki_os.Alloc.PageMan.{page_size, total_level, offset, get_offset}
use saki_os.Alloc.PageMan.Create.{bitmap_bytes, page_cost}

-- The bytes of the bitmaps of the last `rounds` levels, with one bit for each two blocks of a level,
-- for `limit` pages.
unfoldable pub bits_of : ℕ → ℕ → ℕ
bits_of zero limit = 0
bits_of (suc rounds) limit =
    ((limit - 1) / 2 ^ (total_level - rounds) + 8) / 8 + bits_of rounds limit

-- The structure has 18 pointers to bitmaps, 18 lists of two pointers, and three words; the bitmaps of
-- the 18 levels stand behind it.
abbrev pub own_pages : ℕ → ℕ
own_pages limit = ((18 + 2 * 18 + 3) * 4 + bits_of 18 limit + 4095) / 4096

-- `lastPage`
abbrev last_page : ℕ → ℕ → ℕ
last_page base limit = (base + (limit + 2 ^ 32 - 1) * page_size) % 2 ^ 32

offset-last_page :
    (base limit : ℕ)
    → base < 2 ^ 32
    → 1 ≤ limit
    → limit ≤ 2 ^ 20
    → offset base (last_page base limit) / page_size ≡ limit - 1
offset-last_page base limit h low high = omega (arith, h, low, high)

last_index :
    (base limit level : ℕ)
    → base < 2 ^ 32
    → 1 ≤ limit
    → limit ≤ 2 ^ 20
    → get_offset base (last_page base limit) level ≡ (limit - 1) / 2 ^ (level + 1)
unfolding get_offset
last_index base limit level h low high =
    ap (λ t. t / 2 ^ (level + 1)) (offset-last_page base limit h low high)

bytes_of_bits : (n : ℕ) → n < 2 ^ 31 → align_to (n + 1) 8 / 8 ≡ (n + 8) / 8
bytes_of_bits n h = omega (arith, h)

whole_pages : (n : ℕ) → n ≤ 18 * 2 ^ 21 → align_to (n + 228) 4096 / 4096 ≡ (228 + n + 4095) / 4096
whole_pages n h = omega (arith, h)

bitmap_bytes-bits_of :
    (base limit rounds : ℕ)
    → base < 2 ^ 32
    → 1 ≤ limit
    → limit ≤ 2 ^ 20
    → rounds ≤ total_level
    → (bitmap_bytes rounds base (last_page base limit) ≡ bits_of rounds limit)
      × (bits_of rounds limit ≤ rounds * 2 ^ 21)
unfolding bitmap_bytes bits_of
bitmap_bytes-bits_of base limit zero h low high k = (refl, omega arith)
bitmap_bytes-bits_of base limit (suc rounds) h low high k =
    let (e, small) = bitmap_bytes-bits_of base limit rounds h low high (omega (arith, k)) in
    let level : total_level - suc rounds + 1 ≡ total_level - rounds = omega (arith, k) in
    let index =
      last_index base limit (total_level - suc rounds) h low high
      ∙ ap (λ t. (limit - 1) / 2 ^ t) level in
    let bound = div-le_self (limit - 1) (2 ^ (total_level - rounds)) in
    (
      ap₂ (λ a b. a + b)
          (ap (λ t. align_to (t + 1) 8 / 8) index
            ∙ bytes_of_bits ((limit - 1) / 2 ^ (total_level - rounds)) (omega (arith, bound, high)))
          e,
      omega (arith, small, bound, high),
    )

pub page_cost-own_pages :
    (base limit : ℕ)
    → base < 2 ^ 32
    → 1 ≤ limit
    → limit ≤ 2 ^ 20
    → page_cost base limit ≡ own_pages limit
unfolding page_cost
page_cost-own_pages base limit h low high =
    let (e, small) = bitmap_bytes-bits_of base limit 18 h low high (omega arith) in
    ap (λ t. align_to (t + 228) 4096 / 4096) e ∙ whole_pages (bits_of 18 limit) small
