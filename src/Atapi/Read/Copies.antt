-- ===== src/Atapi/Read/Copies.antt =====
-- bootmgr/vfs/atapi.c: the blocks that `read` copies, and the ends of sectors.
use saki_os.Base.{
  ℕ, ◌+◌, ◌-◌, ◌*◌, ◌/◌, ◌%◌, ◌^◌, ◌≤◌, ◌≡◌, ◌∙◌, ◌⊎◌, false, ◌==◌, if◌then◌else◌, arith, inl, inr,
}
use saki_os.CString.{Memory, memcpy}
use saki_os.CString.Blocks.{in_block, memcpy_lem}
use saki_os.Base.Align.{align_to}

-- Two blocks of memory have no address in common.
abbrev pub Apart : ℕ → ℕ → ℕ → ℕ → Type 0
Apart p n q k = (p + n ≤ q) ⊎ (q + k ≤ p)

pub Apart-part : (p n q k off k' : ℕ) → off + k' ≤ k → Apart p n q k → Apart p n (q + off) k'
Apart-part p n q k off k' h (inl e) = inl (omega arith)
Apart-part p n q k off k' h (inr e) = inr (omega arith)

-- From `m` to `m'` the block at `buffer` has got the bytes of the disk from `offset` on. The sector
-- buffer `buf` may have changed too, and nothing else.
abbrev pub Reads : (ℕ → ℕ) → ℕ → ℕ → ℕ → ℕ → Memory → Memory → Type 0
Reads disk buf offset size buffer m m' =
    (a : ℕ)
    → in_block buf 2048 a ≡ false
    → m' a ≡ (if in_block buffer size a then disk (offset + (a - buffer)) else m a)

pub Reads-append :
    (disk : ℕ → ℕ) (buf offset size n buffer : ℕ) (m m' m'' : Memory)
    → n ≤ size
    → Reads disk buf offset n buffer m m'
    → Reads disk buf (offset + n) (size - n) (buffer + n) m' m''
    → Reads disk buf offset size buffer m m''
Reads-append disk buf offset size n buffer m m' m'' h r r' a out = ground (arith, r a out, r' a out)

-- A part of the sector that was read into `buf` is copied.
pub Reads-memcpy :
    (disk : ℕ → ℕ) (buf offset n buffer : ℕ) (m m' : Memory)
    → n + offset % 2048 ≤ 2048
    → Apart buf 2048 buffer n
    → ((a : ℕ)
        → m' a ≡ (if in_block buf 2048 a then disk (offset / 2048 * 2048 + (a - buf)) else m a))
    → Reads disk buf offset n buffer m (memcpy buffer (buf + offset % 2048) n m')
Reads-memcpy disk buf offset n buffer m m' h apart e a out =
    memcpy_lem buffer (buf + offset % 2048) n m' (grind (arith, apart)) a
    ∙ ground (arith, e a, e (buf + offset % 2048 + (a - buffer)), out)

pub align_to-aligned :
    (offset : ℕ) → offset + 2048 ≤ 2 ^ 32 → (align_to offset 2048 == offset) ≡ (offset % 2048 == 0)
align_to-aligned offset h = ground arith

pub align_to-unaligned :
    (offset : ℕ)
    → offset + 2048 ≤ 2 ^ 32
    → (offset % 2048 == 0) ≡ false
    → align_to offset 2048 ≡ offset + (2048 - offset % 2048)
align_to-unaligned offset h k = ground arith
