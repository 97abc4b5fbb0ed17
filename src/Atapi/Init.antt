-- ===== src/Atapi/Init.antt =====
-- bootmgr/vfs/atapi.c: `ATAPI_init`. `buf` is the sector buffer that it allocates.
use saki_os.Base.{ℕ, List, [], ◌∷◌, if◌then◌else◌, Result, ok, fault, assertion, ◌>>=◌}
use saki_os.Atapi.{
  Ports, AtapiData, DriveState, ata_primary, ata_secondary, ata_master, ata_slave, atapi_identify,
  atapi_read_capacity,
}

-- `device`, as it stands at each of the four tests
abbrev pub devices : List AtapiData
devices =
    record { bus = ata_secondary; dev = ata_master }
    ∷ record { bus = ata_secondary; dev = ata_slave }
    ∷ record { bus = ata_primary; dev = ata_slave }
    ∷ record { bus = ata_primary; dev = ata_master }
    ∷ []

module _ {W : Type 0} (ports : Ports W) where
  -- the first device that answers, with `node.length`
  unfoldable pub try_devices :
      ℕ → ℕ → ℕ × ℕ → List AtapiData → DriveState W → Result ((AtapiData × ℕ) × DriveState W)
  try_devices fuel buf behind [] s = fault assertion
  try_devices fuel buf behind (device ∷ rest) s = do
    (found, s) ← atapi_identify ports fuel buf device s
    let next = try_devices fuel buf behind rest s
    if found
        then (do
          (length, s) ← atapi_read_capacity ports fuel behind device s
          ok ((device, length), s))
        else next

  unfoldable pub atapi_init : ℕ → ℕ → ℕ × ℕ → DriveState W → Result ((AtapiData × ℕ) × DriveState W)
  unfolding try_devices
  atapi_init fuel buf behind s = try_devices fuel buf behind devices s
