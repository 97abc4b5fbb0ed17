-- ===== src/Atapi/Read/Exact.antt =====
-- bootmgr/vfs/atapi.c: `read` fills the buffer with the bytes of the disk.
use saki_os.Base.{ℕ, ◌+◌, ◌/◌, ◌%◌, ◌^◌, ◌≤◌, ◌<◌, ◌≡◌, ◌==◌, if◌then◌else◌, Result, ok, ◌>>=◌}
use saki_os.Atapi.{Ports, AtapiData, DriveState}
use saki_os.Atapi.Sector.{IsDrive, IsReady}
use saki_os.Atapi.Read.{read_loop}
use saki_os.Atapi.Read.Copies.{Apart, Reads}

module _ {W : Type 0} (ports : Ports W) (drive : AtapiData) (limit sectors : ℕ) (disk : ℕ → ℕ)
    (is_drive : IsDrive ports (drive.bus) (drive.dev) limit sectors disk) (fuel buf : ℕ)
    (h : limit < fuel) where
  abbrev Ready : DriveState W → Type 0
  Ready s = IsReady ports drive limit sectors disk is_drive s

  -- `run` ends with the device ready, and has read the bytes.
  abbrev Filled : ℕ → ℕ → ℕ → DriveState W → Result (DriveState W) → Type 0
  Filled offset size buffer s run =
      (s' : DriveState W) × (run ≡ ok s')
      × Ready s'
      × Reads disk buf offset size buffer (s.memory) (s'.memory)

  abbrev Goal : ℕ → Type 0
  Goal rounds =
      (offset size buffer : ℕ) (s : DriveState W)
      → size / 2048 + 2 + (if offset % 2048 == 0 then 0 else 1) ≤ rounds
      → offset + size + 2048 < 2 ^ 32
      → (offset + size) / 2048 < sectors
      → Apart buf 2048 buffer size
      → Ready s
      → Filled offset size buffer s (read_loop ports rounds fuel drive buf offset size buffer s)
