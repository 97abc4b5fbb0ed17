-- ===== src/Atapi/Read.antt =====
-- bootmgr/vfs/atapi.c: `read`.
pub mod Copies
pub mod Exact
use saki_os.Base.{
  ℕ, zero, suc, ◌+◌, ◌-◌, ◌*◌, ◌/◌, ◌%◌, ◌^◌, not, ◌==◌, ltb, if◌then◌else◌, Result, ok, fault,
  out_of_fuel, ◌>>=◌,
}
use saki_os.Base.Align.{align_to, align_down}
use saki_os.CString.{memcpy}
use saki_os.Atapi.{Ports, AtapiData, DriveState, atapi_read_sector}

module _ {W : Type 0} (ports : Ports W) where
  -- `memcpy(dest, src, count)`
  unfoldable pub copy : ℕ → ℕ → ℕ → DriveState W → DriveState W
  copy dest src count s = record s { memory = memcpy dest src count (s.memory) }

  -- The memory that `read` leaves, with 32-bit `offset` and `size`; `rounds` bounds the calls of
  -- itself.
  unfoldable pub read_loop :
      ℕ → ℕ → AtapiData → ℕ → ℕ → ℕ → ℕ → DriveState W → Result (DriveState W)
  read_loop zero fuel drive buf offset size buffer s = fault out_of_fuel
  read_loop (suc rounds) fuel drive buf offset size buffer s =
      let align_u = align_to offset 2048 in
      let align_d = align_down offset 2048 in
      let nsize = (align_u + 2 ^ 32 - offset) % 2 ^ 32 in
      if not (align_u == offset)
      then (do
        s ← atapi_read_sector ports fuel drive buf (align_d / 2048) s
        if ltb size nsize
            then ok (copy buffer (buf + offset - align_d) size s)
            else read_loop rounds fuel drive buf align_u (size - nsize) (buffer + nsize)
                (copy buffer (buf + offset - align_d) nsize s))
      else if size == 2048
      then atapi_read_sector ports fuel drive buffer (offset / 2048) s
      else if ltb 2048 size
      then (do
        s ← atapi_read_sector ports fuel drive buffer (offset / 2048) s
        read_loop rounds fuel drive buf ((offset + 2048) % 2 ^ 32) (size - 2048) (buffer + 2048) s)
      else (do
        s ← atapi_read_sector ports fuel drive buf (offset / 2048) s
        ok (copy buffer buf size s))

  -- `read`: the value returned, and the state. A call reads a sector, or the rest of one.
  unfoldable pub read : ℕ → AtapiData → ℕ → ℕ → ℕ → ℕ → DriveState W → Result (ℕ × DriveState W)
  unfolding read_loop copy
  read fuel drive buf offset size buffer s = do
    s ←
        read_loop (size % 2 ^ 32 / 2048 + 3) fuel drive buf (offset % 2 ^ 32) (size % 2 ^ 32) buffer
          s
    ok (size % 2 ^ 32, s)
