-- ===== src/Atapi/Sector.antt =====
-- bootmgr/vfs/atapi.c: what `ATAPI_readSector` reads from a drive that keeps to the protocol.
use saki_os.Base.{
  ℕ, zero, suc, ◌+◌, ◌-◌, ◌*◌, ◌^◌, ◌≤◌, ◌<◌, ◌≡◌, ◌∙◌, refl, sym, subst, ap, Bool, true, false,
  not, Option, some, ◌==◌, if◌then◌else◌, ok, arith, Bool-cases, inl, inr,
}
use saki_os.CString.{Memory}
use saki_os.CString.Blocks.{in_block}
use saki_os.Atapi.{
  Ports, AtapiData, DriveState, has_bit, write_port8, rep_read_port16, ata_delay, ata_select,
  wait_idle, count_of, selected, set_selected, ata_primary, packet_command, wait_data,
  ata_wait_device, answer, atapi_packet, read_packet, atapi_read_sector,
}

-- where a drive stands in the protocol of the command PACKET
pub data Phase : Type 0 where
  -- no command is being carried out
  idle : Phase
  -- the drive waits for the packet, and sends at most this many bytes at a time
  wants_packet : ℕ → Phase
  -- the drive has the sector ready
  has_sector : ℕ → Phase

abbrev pub transfers : Phase → Bool
transfers idle = false
transfers (wants_packet n) = true
transfers (has_sector lba) = true

-- The device `dev` of the bus, by the registers of ATA. It is busy for some polls of its status and
-- reports no error. A command is written while it is idle and not busy. PACKET, when the device is
-- chosen, makes it wait for a packet, with the byte count of the two registers; the packet READ (12)
-- of one sector, for 2048 bytes at a time, makes it ready with the sector. DRQ is set in these two
-- phases only. When the sector has been read the device is idle and takes the next command at once.
pub record IsDrive {W : Type 0} (ports : Ports W) (bus dev limit sectors : ℕ) (disk : ℕ → ℕ)
    : Type 0 where
  pub busy : W → ℕ
  pub phase : W → Phase
  -- the values last written to the device register and the two registers of the byte count
  pub chosen : W → Option ℕ
  pub low : W → ℕ
  pub high : W → ℕ
  pub busy-le : (w : W) → busy w ≤ limit
  pub disk-lt : (a : ℕ) → disk a < 2 ^ 8
  pub status_busy : (w : W) → has_bit 7 ((ports.inb (bus + 7) w).0) ≡ not (busy w == 0)
  pub status_error : (w : W) → has_bit 0 ((ports.inb (bus + 7) w).0) ≡ false
  pub status_data :
      (w : W) → busy w ≡ 0 → has_bit 3 ((ports.inb (bus + 7) w).0) ≡ transfers (phase w)
  pub status_next : (w : W) → busy ((ports.inb (bus + 7) w).1) ≡ busy w - 1
  pub status_phase : (w : W) → phase ((ports.inb (bus + 7) w).1) ≡ phase w
  pub choose :
      (w : W) (v : ℕ)
      → phase w ≡ idle
      → busy w ≡ 0
      → (chosen (ports.outb (bus + 6) v w) ≡ some v)
        × (phase (ports.outb (bus + 6) v w) ≡ idle)
        × (busy (ports.outb (bus + 6) v w) ≡ 0)
  pub alternate_status :
      (w : W)
      → phase w ≡ idle
      → busy w ≡ 0
      → (chosen ((ports.inb (bus + 0x206) w).1) ≡ chosen w)
        × (phase ((ports.inb (bus + 0x206) w).1) ≡ idle)
        × (busy ((ports.inb (bus + 0x206) w).1) ≡ 0)
  pub feature :
      (w : W) (v : ℕ)
      → phase w ≡ idle
      → busy w ≡ 0
      → (chosen (ports.outb (bus + 1) v w) ≡ chosen w)
        × (phase (ports.outb (bus + 1) v w) ≡ idle)
        × (busy (ports.outb (bus + 1) v w) ≡ 0)
  -- the bit that turns interrupts off
  pub control :
      (w : W)
      → phase w ≡ idle
      → busy w ≡ 0
      → (chosen (ports.outb (bus + 0x206) 2 w) ≡ chosen w)
        × (phase (ports.outb (bus + 0x206) 2 w) ≡ idle)
        × (busy (ports.outb (bus + 0x206) 2 w) ≡ 0)
  pub set_low :
      (w : W) (v : ℕ)
      → phase w ≡ idle
      → busy w ≡ 0
      → (chosen (ports.outb (bus + 4) v w) ≡ chosen w)
        × (phase (ports.outb (bus + 4) v w) ≡ idle)
        × (busy (ports.outb (bus + 4) v w) ≡ 0)
        × (low (ports.outb (bus + 4) v w) ≡ v)
  pub set_high :
      (w : W) (v : ℕ)
      → phase w ≡ idle
      → busy w ≡ 0
      → (chosen (ports.outb (bus + 5) v w) ≡ chosen w)
        × (phase (ports.outb (bus + 5) v w) ≡ idle)
        × (busy (ports.outb (bus + 5) v w) ≡ 0)
        × (low (ports.outb (bus + 5) v w) ≡ low w)
        × (high (ports.outb (bus + 5) v w) ≡ v)
  pub packet :
      (w : W)
      → phase w ≡ idle
      → busy w ≡ 0
      → chosen w ≡ some dev
      → phase (ports.outb (bus + 7) 0xA0 w) ≡ wants_packet (low w + high w * 2 ^ 8)
  pub read_12 :
      (w : W) (lba : ℕ)
      → busy w ≡ 0
      → phase w ≡ wants_packet 2048
      → lba < sectors
      → phase (ports.outsw bus (read_packet lba) w) ≡ has_sector lba
  pub count_low :
      (w : W) (lba : ℕ)
      → busy w ≡ 0
      → phase w ≡ has_sector lba
      → ((ports.inb (bus + 4) w).0 ≡ 0)
        × (busy ((ports.inb (bus + 4) w).1) ≡ 0)
        × (phase ((ports.inb (bus + 4) w).1) ≡ has_sector lba)
  pub count_high :
      (w : W) (lba : ℕ)
      → busy w ≡ 0
      → phase w ≡ has_sector lba
      → ((ports.inb (bus + 5) w).0 ≡ 8)
        × (busy ((ports.inb (bus + 5) w).1) ≡ 0)
        × (phase ((ports.inb (bus + 5) w).1) ≡ has_sector lba)
  pub sector :
      (w : W) (lba i : ℕ)
      → busy w ≡ 0
      → phase w ≡ has_sector lba
      → i < 2048
      → (ports.insw bus 1024 w).0 i ≡ disk (lba * 2048 + i)
  pub finished :
      (w : W) (lba : ℕ)
      → busy w ≡ 0
      → phase w ≡ has_sector lba
      → (chosen ((ports.insw bus 1024 w).1) ≡ some dev)
        × (phase ((ports.insw bus 1024 w).1) ≡ idle)
        × (busy ((ports.insw bus 1024 w).1) ≡ 0)

module _ {W : Type 0} (ports : Ports W) (drive : AtapiData) (limit sectors : ℕ) (disk : ℕ → ℕ)
    (is_drive : IsDrive ports (drive.bus) (drive.dev) limit sectors disk) where
  -- The device takes commands, and it is the chosen one where the driver takes it for that.
  pub record IsReady (s : DriveState W) : Type 0 where
    pub no_command : is_drive.phase (s.world) ≡ idle
    pub not_busy : is_drive.busy (s.world) ≡ 0
    pub known : selected ports drive s ≡ true → is_drive.chosen (s.world) ≡ some (drive.dev)

  -- the device takes commands and is chosen
  abbrev IsChosen : W → Type 0
  IsChosen w =
      (is_drive.chosen w ≡ some (drive.dev)) × (is_drive.phase w ≡ idle) × (is_drive.busy w ≡ 0)

  ata_delay-IsChosen :
      (delay : ℕ) (s : DriveState W)
      → IsChosen (s.world)
      → IsChosen ((ata_delay ports drive delay s).world)
  unfolding ata_delay
  ata_delay-IsChosen zero s c = c
  ata_delay-IsChosen (suc delay) s (c, p, b) =
      let (c', p', b') = is_drive.alternate_status (s.world) p b in
      ata_delay-IsChosen delay (record s { world = (ports.inb (drive.bus + 0x206) (s.world)).1 })
        (c' ∙ c, p', b')

  either_world :
      (b : Bool) (s s' : DriveState W) (w : W)
      → s.world ≡ w
      → s'.world ≡ w
      → (if b then s else s').world ≡ w
  either_world true s s' w e e' = e
  either_world false s s' w e e' = e'

  ata_select-IsChosen : (s : DriveState W) → IsReady s → IsChosen ((ata_select ports drive s).world)
  unfolding ata_select
  ata_select-IsChosen s r = elim (Bool-cases (selected ports drive s)) [
    | inl known ↦ rw known (r.known known, r.no_command, r.not_busy)
    | inr unknown ↦
        (let same : (set_selected ports drive s).world ≡ s.world =
            either_world (drive.bus == ata_primary) _ _ (s.world) refl refl in
          rw unknown (
            ata_delay-IsChosen 4
              (write_port8 ports (drive.bus + 6) (drive.dev) (set_selected ports drive s))
              (subst (λ w. IsChosen (ports.outb (drive.bus + 6) (drive.dev) w)) (sym same)
                (is_drive.choose (s.world) (drive.dev) r.no_command r.not_busy))))
  ]

  packet_command-wants_packet :
      (s : DriveState W)
      → IsReady s
      → is_drive.phase ((packet_command ports drive 2048 s).world) ≡ wants_packet 2048
  unfolding packet_command
  packet_command-wants_packet s r =
      let w = (ata_select ports drive s).world in
      let (c, p, b) = ata_select-IsChosen s r in
      let (c₁, p₁, b₁) = is_drive.feature w 0 p b in
      let w₁ = ports.outb (drive.bus + 1) 0 w in
      let (c₂, p₂, b₂) = is_drive.control w₁ p₁ b₁ in
      let w₂ = ports.outb (drive.bus + 0x206) 2 w₁ in
      let (c₃, p₃, b₃, l) = is_drive.set_low w₂ 0 p₂ b₂ in
      let w₃ = ports.outb (drive.bus + 4) 0 w₂ in
      let (c₄, p₄, b₄, l', h) = is_drive.set_high w₃ 8 p₃ b₃ in
      let w₄ = ports.outb (drive.bus + 5) 8 w₃ in
      is_drive.packet w₄ p₄ b₄ (c₄ ∙ c₃ ∙ c₂ ∙ c₁ ∙ c) ∙ ap wants_packet (omega (arith, l, l', h))

  wait_idle-Idle :
      (fuel : ℕ) (s : DriveState W)
      → is_drive.busy (s.world) < fuel
      → (w : W) × (wait_idle ports fuel drive s ≡ ok (true, record s { world = w }))
        × (is_drive.busy w ≡ 0)
        × (is_drive.phase w ≡ is_drive.phase (s.world))
  unfolding wait_idle
  wait_idle-Idle zero s h = absurd (omega arith)
  wait_idle-Idle (suc fuel) s h = elim (Bool-cases (is_drive.busy (s.world) == 0)) [
    | inl e ↦ (
      (ports.inb (drive.bus + 7) (s.world)).1,
      rw (is_drive.status_busy (s.world), e) refl,
      is_drive.status_next (s.world) ∙ ground (arith, e),
      is_drive.status_phase (s.world),
    )
    | inr e ↦
        (let (w, run, done, same) =
            wait_idle-Idle fuel (record s { world = (ports.inb (drive.bus + 7) (s.world)).1 })
              (ground (arith, e, is_drive.status_next (s.world))) in
          (
            w,
            rw (is_drive.status_busy (s.world), e, is_drive.status_error (s.world)) run,
            done,
            same ∙ is_drive.status_phase (s.world),
          ))
  ]

  -- In a phase that transfers, waiting ends with the device ready.
  ata_wait_device-transfers :
      (fuel : ℕ) (s : DriveState W) (phase : Phase)
      → limit < fuel
      → is_drive.phase (s.world) ≡ phase
      → transfers phase ≡ true
      → (w : W) × (ata_wait_device ports fuel drive s ≡ ok (true, record s { world = w }))
        × (is_drive.busy w ≡ 0)
        × (is_drive.phase w ≡ phase)
  unfolding ata_wait_device wait_data
  ata_wait_device-transfers zero s phase h e t = absurd (omega arith)
  ata_wait_device-transfers (suc fuel) s phase h e t =
      let (w, run, ready, same) =
        wait_idle-Idle (suc fuel) s (omega (arith, is_drive.busy-le (s.world), h)) in
      let drq = is_drive.status_data w ready ∙ ap transfers (same ∙ e) ∙ t in
      (
        (ports.inb (drive.bus + 7) w).1,
        rw (run, drq) refl,
        omega (arith, is_drive.status_next w, ready),
        is_drive.status_phase w ∙ same ∙ e,
      )

  count_of-read :
      (s : DriveState W) (lba : ℕ)
      → is_drive.busy (s.world) ≡ 0
      → is_drive.phase (s.world) ≡ has_sector lba
      → (w : W) × (count_of ports drive s ≡ (some 2048, record s { world = w }))
        × (is_drive.busy w ≡ 0)
        × (is_drive.phase w ≡ has_sector lba)
  count_of-read s lba b e =
      let (low, b', kept) = is_drive.count_low (s.world) lba b e in
      let (high, b'', kept') =
        is_drive.count_high ((ports.inb (drive.bus + 4) (s.world)).1) lba b' kept in
      (
        (ports.inb (drive.bus + 5) ((ports.inb (drive.bus + 4) (s.world)).1)).1,
        rw (low, high) refl,
        b'',
        kept',
      )

  answer-read :
      (fuel : ℕ) (s : DriveState W) (lba : ℕ)
      → limit < fuel
      → lba < sectors
      → is_drive.busy (s.world) ≡ 0
      → is_drive.phase (s.world) ≡ wants_packet 2048
      → (w : W) × (answer ports fuel drive (read_packet lba) s
          ≡ ok (some 2048, record s { world = w }))
        × (is_drive.busy w ≡ 0)
        × (is_drive.phase w ≡ has_sector lba)
  unfolding answer
  answer-read fuel s lba h k b e =
      let sent = ports.outsw (drive.bus) (read_packet lba) (s.world) in
      let (w, run, ready, same) =
        ata_wait_device-transfers fuel (record s { world = sent }) (has_sector lba) h
          (is_drive.read_12 (s.world) lba b e k) refl in
      let (w', count, b', kept) = count_of-read (record s { world = w }) lba ready same in
      (w', rw (run, count) refl, b', kept)

  either_memory :
      (b : Bool) (s s' : DriveState W) (m : Memory)
      → s.memory ≡ m
      → s'.memory ≡ m
      → (if b then s else s').memory ≡ m
  either_memory true s s' m e e' = e
  either_memory false s s' m e e' = e'

  memory-ata_delay :
      (delay : ℕ) (s : DriveState W) → (ata_delay ports drive delay s).memory ≡ s.memory
  unfolding ata_delay
  memory-ata_delay zero s = refl
  memory-ata_delay (suc delay) s =
      memory-ata_delay delay (record s { world = (ports.inb (drive.bus + 0x206) (s.world)).1 })

  memory-ata_select : (s : DriveState W) → (ata_select ports drive s).memory ≡ s.memory
  unfolding ata_select
  memory-ata_select s = either_memory (selected ports drive s) s _ (s.memory) refl (
      memory-ata_delay 4
        (write_port8 ports (drive.bus + 6) (drive.dev) (set_selected ports drive s))
      ∙ either_memory (drive.bus == ata_primary) _ _ (s.memory) refl refl)

  memory-packet_command : (s : DriveState W) → (packet_command ports drive 2048 s).memory ≡ s.memory
  unfolding packet_command
  memory-packet_command s = memory-ata_select s

  atapi_packet-read :
      (fuel : ℕ) (s : DriveState W) (lba : ℕ)
      → limit < fuel
      → lba < sectors
      → IsReady s
      → (s' : DriveState W) × (atapi_packet ports fuel drive 2048 (read_packet lba) s
          ≡ ok (some 2048, s'))
        × (is_drive.busy (s'.world) ≡ 0)
        × (is_drive.phase (s'.world) ≡ has_sector lba)
        × (s'.memory ≡ s.memory)
  unfolding atapi_packet
  atapi_packet-read fuel s lba h k r =
      let start = packet_command ports drive 2048 s in
      let (w, run, ready, same) =
        ata_wait_device-transfers fuel start (wants_packet 2048) h (packet_command-wants_packet s r)
          refl in
      let (w', run', b, kept) = answer-read fuel (record start { world = w }) lba h k ready same in
      (record start { world = w' }, rw (run) run', b, kept, memory-packet_command s)

  -- With enough fuel for the polls, the sector is stored in the block at `buffer`, nothing else in
  -- memory changes, and the device is ready again.
  pub atapi_read_sector-sector :
      (fuel buffer lba : ℕ) (s : DriveState W)
      → limit < fuel
      → lba < sectors
      → IsReady s
      → (s' : DriveState W) × (atapi_read_sector ports fuel drive buffer lba s ≡ ok s')
        × IsReady s'
        × ((a : ℕ)
            → s'.memory a
              ≡ (if in_block buffer 2048 a then disk (lba * 2048 + (a - buffer)) else s.memory a))
  unfolding atapi_read_sector
  atapi_read_sector-sector fuel buffer lba s h k r =
      let (s', run, b, sent, same) = atapi_packet-read fuel s lba h k r in
      let (chosen, free, ready) = is_drive.finished (s'.world) lba b sent in
      (
        rep_read_port16 ports (drive.bus) buffer 2048 s',
        rw (run) refl,
        record { no_command = free; not_busy = ready; known = λ _. chosen },
        λ a. byte s' a b sent (ap (λ m. m a) same),
      )
    where
      byte :
          (s' : DriveState W) (a : ℕ)
          → is_drive.busy (s'.world) ≡ 0
          → is_drive.phase (s'.world) ≡ has_sector lba
          → s'.memory a ≡ s.memory a
          → (rep_read_port16 ports (drive.bus) buffer 2048 s').memory a
            ≡ (if in_block buffer 2048 a then disk (lba * 2048 + (a - buffer)) else s.memory a)
      byte s' a b sent same = ground (
        arith,
        same,
        is_drive.sector (s'.world) lba (a - buffer) b sent,
        is_drive.disk-lt (lba * 2048 + (a - buffer)),
      )
