-- ===== src/Atapi.antt =====
-- bootmgr/vfs/atapi.c: the driver of a CD-ROM drive. The instructions of asm/asm.h that move data
-- between the processor and a port are the interface `Ports` over the state of the device; `insw`
-- gives the bytes it stores, by their offset. A loop that waits for the device takes fuel.
pub mod Init
pub mod Sector
pub mod Read
use saki_os.Base.{
  ℕ, zero, suc, ◌+◌, ◌-◌, ◌*◌, ◌/◌, ◌%◌, ◌^◌, Bool, true, false, not, ◌&&◌, Option, none, some,
  List, [], ◌∷◌, ◌++◌, ◌==◌, ltb, leb, if◌then◌else◌, Result, ok, fault, assertion, invalid,
  out_of_fuel, ◌>>=◌, assert, ◌>>◌,
}
use saki_os.CString.{Memory, memcpy}
use saki_os.CString.Blocks.{in_block}

pub record Ports (W : Type 0) : Type 0 where
  -- `readPort8`
  pub inb : ℕ → W → ℕ × W
  -- `writePort8`
  pub outb : ℕ → ℕ → W → W
  -- `repReadPort16` of this many words
  pub insw : ℕ → ℕ → W → (ℕ → ℕ) × W
  -- `repWritePort16` of these bytes
  pub outsw : ℕ → List ℕ → W → W

pub record AtapiData : Type 0 where
  pub bus : ℕ
  pub dev : ℕ

-- `dev[0]` and `dev[1]`, where `none` is -1; the static `buf` is a parameter of what uses it.
pub record DriveState (W : Type 0) : Type 0 where
  pub world : W
  pub memory : Memory
  pub primary : Option ℕ
  pub secondary : Option ℕ

abbrev pub ata_primary : ℕ
ata_primary = 0x1F0

abbrev pub ata_secondary : ℕ
ata_secondary = 0x170

abbrev pub ata_master : ℕ
ata_master = 0

abbrev pub ata_slave : ℕ
ata_slave = 16

-- `(status & (1 << k)) != 0`
unfoldable pub has_bit : ℕ → ℕ → Bool
has_bit k status = (status / 2 ^ k) % 2 == 1

-- the packet of READ (12) for one sector
abbrev pub read_packet : ℕ → List ℕ
read_packet lba =
    0xA8
    ∷ 0
    ∷ lba / 2 ^ 24 % 2 ^ 8
    ∷ lba / 2 ^ 16 % 2 ^ 8
    ∷ lba / 2 ^ 8 % 2 ^ 8
    ∷ lba % 2 ^ 8
    ∷ 0
    ∷ 0
    ∷ 0
    ∷ 1
    ∷ 0
    ∷ 0
    ∷ []

-- the big-endian word at `offset` of the bytes read
abbrev pub big_word : (ℕ → ℕ) → ℕ → ℕ
big_word bytes offset =
    bytes offset % 2 ^ 8 * 2 ^ 24
    + bytes (offset + 1) % 2 ^ 8 * 2 ^ 16
    + bytes (offset + 2) % 2 ^ 8 * 2 ^ 8
    + bytes (offset + 3) % 2 ^ 8

module _ {W : Type 0} (ports : Ports W) where
  abbrev pub read_port8 : ℕ → DriveState W → ℕ × DriveState W
  read_port8 port s = let (value, w) = ports.inb port (s.world) in (value, record s { world = w })

  abbrev pub write_port8 : ℕ → ℕ → DriveState W → DriveState W
  write_port8 port value s = record s { world = ports.outb port value (s.world) }

  -- `rep insw` with `count >> 1` words, into the memory at `buffer`
  abbrev pub rep_read_port16 : ℕ → ℕ → ℕ → DriveState W → DriveState W
  rep_read_port16 port buffer count s =
      let (bytes, w) = ports.insw port (count / 2) (s.world) in
      record s {
        world = w;
        memory = λ a.
            if in_block buffer (count / 2 * 2) a then bytes (a - buffer) % 2 ^ 8 else s.memory a;
      }

  abbrev pub rep_write_port16 : ℕ → List ℕ → DriveState W → DriveState W
  rep_write_port16 port packet s = record s { world = ports.outsw port packet (s.world) }

  unfoldable pub ata_delay : AtapiData → ℕ → DriveState W → DriveState W
  ata_delay drive zero s = s
  ata_delay drive (suc delay) s =
      let (_, s) = read_port8 (drive.bus + 0x206) s in ata_delay drive delay s

  abbrev pub selected : AtapiData → DriveState W → Bool
  selected drive s = elim (if drive.bus == ata_primary then s.primary else s.secondary) [
    | none ↦ false
    | some d ↦ d == drive.dev
  ]

  abbrev pub set_selected : AtapiData → DriveState W → DriveState W
  set_selected drive s =
      if drive.bus == ata_primary
      then record s { primary = some (drive.dev) }
      else record s { secondary = some (drive.dev) }

  unfoldable pub ata_select : AtapiData → DriveState W → DriveState W
  unfolding ata_delay
  ata_select drive s =
      if selected drive s
      then s
      else ata_delay drive 4 (write_port8 (drive.bus + 6) (drive.dev) (set_selected drive s))

  -- the loop until the device is not busy; `false` when it reports an error
  unfoldable pub wait_idle : ℕ → AtapiData → DriveState W → Result (Bool × DriveState W)
  wait_idle zero drive s = fault out_of_fuel
  wait_idle (suc fuel) drive s =
      let (status, s) = read_port8 (drive.bus + 7) s in
      let rest = wait_idle fuel drive s in
      if not (has_bit 7 status)
      then ok (true, s)
      else if has_bit 0 status
      then ok (false, s)
      else rest

  -- the loop until the device has data
  unfoldable pub wait_data : ℕ → AtapiData → DriveState W → Result (Bool × DriveState W)
  wait_data zero drive s = fault out_of_fuel
  wait_data (suc fuel) drive s =
      let (status, s) = read_port8 (drive.bus + 7) s in
      let rest = wait_data fuel drive s in
      if has_bit 3 status then ok (true, s) else if has_bit 0 status then ok (false, s) else rest

  unfoldable pub ata_wait_device : ℕ → AtapiData → DriveState W → Result (Bool × DriveState W)
  unfolding wait_idle wait_data
  ata_wait_device fuel drive s = do
    (idle, s) ← wait_idle fuel drive s
    if idle then wait_data fuel drive s else ok (false, s)

  unfoldable pub atapi_identify : ℕ → ℕ → AtapiData → DriveState W → Result (Bool × DriveState W)
  unfolding ata_select ata_wait_device
  atapi_identify fuel buf drive s = do
    let s = ata_select drive s
    let s = write_port8 (drive.bus + 7) 0xA1 s
    let (status, s) = read_port8 (drive.bus + 7) s
    if status == 0 then ok (false, s) else (do
      (ready, s) ← ata_wait_device fuel drive s
      ok (ready, if ready then rep_read_port16 (drive.bus) buf 512 s else s))

  -- The two ports are read from left to right.
  abbrev pub count_of : AtapiData → DriveState W → Option ℕ × DriveState W
  count_of drive s =
      let (mid, s) = read_port8 (drive.bus + 4) s in
      let (high, s) = read_port8 (drive.bus + 5) s in (some (mid + high * 2 ^ 8), s)

  -- what follows the command: the packet, and the count of the answer
  unfoldable pub answer : ℕ → AtapiData → List ℕ → DriveState W → Result (Option ℕ × DriveState W)
  unfolding ata_wait_device
  answer fuel drive packet s = do
    let s = rep_write_port16 (drive.bus) packet s
    (ready, s) ← ata_wait_device fuel drive s
    ok (if ready then count_of drive s else (none, s))

  -- the writes that announce a packet
  unfoldable pub packet_command : AtapiData → ℕ → DriveState W → DriveState W
  unfolding ata_select
  packet_command drive byte_count s =
      let s = ata_select drive s in
      let s = write_port8 (drive.bus + 1) 0 s in
      let s = write_port8 (drive.bus + 0x206) 2 s in
      let s = write_port8 (drive.bus + 4) (byte_count % 2 ^ 8) s in
      let s = write_port8 (drive.bus + 5) (byte_count / 2 ^ 8 % 2 ^ 8) s in
      write_port8 (drive.bus + 7) 0xA0 s

  -- `none` is -1. `packet` are the bytes sent.
  unfoldable pub atapi_packet :
      ℕ → AtapiData → ℕ → List ℕ → DriveState W → Result (Option ℕ × DriveState W)
  unfolding packet_command ata_wait_device answer
  atapi_packet fuel drive byte_count packet s = do
    let s = packet_command drive byte_count s
    (ready, s) ← ata_wait_device fuel drive s
    if not ready then ok (none, s) else answer fuel drive packet s

  unfoldable pub atapi_read_sector : ℕ → AtapiData → ℕ → ℕ → DriveState W → Result (DriveState W)
  unfolding atapi_packet
  atapi_read_sector fuel drive buffer lba s = do
    (count, s) ← atapi_packet fuel drive 2048 (read_packet lba) s
    elim count [
      | none ↦ fault assertion
      | some count ↦ assert (count == 2048) >> ok (rep_read_port16 (drive.bus) buffer count s)
    ]

  -- The array `packet` has ten bytes and twelve are sent: `behind` are the two that follow it. The
  -- array `buffer` has eight bytes.
  unfoldable pub atapi_read_capacity :
      ℕ → ℕ × ℕ → AtapiData → DriveState W → Result (ℕ × DriveState W)
  unfolding atapi_packet
  atapi_read_capacity fuel (behind, behind') drive s = do
    let packet = 0x25 ∷ 0 ∷ 0 ∷ 0 ∷ 0 ∷ 0 ∷ 0 ∷ 0 ∷ 0 ∷ 0 ∷ behind ∷ behind' ∷ []
    (count, s) ← atapi_packet fuel drive 8 packet s
    elim count [
      | none ↦ ok (0, s)
      | some count ↦
          if leb 8 count && ltb count 10
          then (let (bytes, w) = ports.insw (drive.bus) (count / 2) (s.world) in
              ok ((big_word bytes 0 + 1) * big_word bytes 4 % 2 ^ 32, record s { world = w }))
          else fault invalid
    ]
