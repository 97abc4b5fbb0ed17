-- ===== src/Tests/Drives.antt =====
-- Runs of bootmgr/vfs/atapi.c and bootmgr/vfs/cdfs.c on a small drive.
use saki_os.Base.{
  ◌-◌, ◌≤◌, ◌&&◌, zero, suc, Option, some, ℕ, ◌+◌, ◌*◌, ◌%◌, ◌^◌, ◌<◌, ◌≡◌, ◌∙◌, refl, ap, Bool,
  true, false, not, List, [], ◌∷◌, ◌++◌, replicate, none, ◌==◌, if◌then◌else◌, ok, get_or, arith,
}
use saki_os.Atapi.{Ports, AtapiData, DriveState, has_bit, read_packet}
use saki_os.Atapi.Sector.{IsDrive, Phase, idle, wants_packet, has_sector, transfers}
use saki_os.Cdfs.{Entry, read_entries, entry_at, dir_rec_at, find_name, strndup}

abbrev disk : ℕ → ℕ
disk a = a * 7 % 251

-- a device 0 that is busy for one poll behind a command and behind a packet
record World : Type 0 where
  phase : Phase
  waits : Bool
  chosen : Option ℕ
  low : ℕ
  high : ℕ

abbrev lba_of : List ℕ → ℕ
lba_of p = get_or p 2 0 * 2 ^ 24 + get_or p 3 0 * 2 ^ 16 + get_or p 4 0 * 2 ^ 8 + get_or p 5 0

-- the status, by whether the device is busy and whether it has data to transfer
abbrev status_of : Bool → Bool → ℕ
status_of true drq = 128
status_of false drq = if drq then 8 else 0

abbrev polls : Bool → ℕ
polls true = 1
polls false = 0

abbrev in_byte : ℕ → World → ℕ × World
in_byte port w =
    if port == 0x177
    then (status_of (w.waits) (transfers (w.phase)), record w { waits = false })
    else (if port == 0x175 then 8 else 0, w)

-- PACKET for the chosen device
abbrev command : Option ℕ → World → World
command none w = w
command (some zero) w = record w { phase = wants_packet (w.low + w.high * 2 ^ 8); waits = true }
command (some (suc d)) w = w

abbrev out_byte : ℕ → ℕ → World → World
out_byte port value w =
    if port == 0x176
    then record w { chosen = some value }
    else if port == 0x174
    then record w { low = value }
    else if port == 0x175
    then record w { high = value }
    else if port == 0x177 && value == 0xA0
    then command (w.chosen) w
    else w

abbrev sector_of : Phase → ℕ → ℕ
sector_of (has_sector lba) i = disk (lba * 2048 + i)
sector_of phase i = 0

abbrev in_words : ℕ → ℕ → World → (ℕ → ℕ) × World
in_words port count w =
    (sector_of (w.phase), record w { phase = idle; waits = false; chosen = some 0 })

-- the packet, which the device takes when it waits for one
abbrev take : Phase → List ℕ → Phase
take (wants_packet n) packet = has_sector (lba_of packet)
take phase packet = phase

abbrev out_words : ℕ → List ℕ → World → World
out_words port packet w = record w { phase = take (w.phase) packet; waits = true }

abbrev ports : Ports World
ports = record { inb = in_byte; outb = out_byte; insw = in_words; outsw = out_words }

lba_of-read_packet : (lba : ℕ) → lba < 1000 → lba_of (read_packet lba) ≡ lba
lba_of-read_packet lba h = omega arith

status_of-busy : (busy drq : Bool) → has_bit 7 (status_of busy drq) ≡ not (polls busy == 0)
unfolding has_bit
status_of-busy true drq = refl
status_of-busy false true = refl
status_of-busy false false = refl

status_of-error : (busy drq : Bool) → has_bit 0 (status_of busy drq) ≡ false
unfolding has_bit
status_of-error true drq = refl
status_of-error false true = refl
status_of-error false false = refl

status_of-drq : (busy drq : Bool) → polls busy ≡ 0 → has_bit 3 (status_of busy drq) ≡ drq
unfolding has_bit
status_of-drq true drq e = absurd (omega (arith, e))
status_of-drq false true e = refl
status_of-drq false false e = refl

polls_end : (busy : Bool) → 0 ≡ polls busy - 1
polls_end true = refl
polls_end false = refl

polls_few : (busy : Bool) → polls busy ≤ 1
polls_few true = omega arith
polls_few false = omega arith

ports-IsDrive : IsDrive ports 0x170 0 1 1000 disk
ports-IsDrive = record {
  busy = λ w. polls (w.waits);
  phase = λ w. w.phase;
  chosen = λ w. w.chosen;
  low = λ w. w.low;
  high = λ w. w.high;
  busy-le = λ w. polls_few (w.waits);
  disk-lt = λ a. omega arith;
  status_busy = λ w. status_of-busy (w.waits) (transfers (w.phase));
  status_error = λ w. status_of-error (w.waits) (transfers (w.phase));
  status_data = λ w b. status_of-drq (w.waits) (transfers (w.phase)) b;
  status_next = λ w. polls_end (w.waits);
  status_phase = λ w. refl;
  choose = λ w v p b. (refl, p, b);
  alternate_status = λ w p b. (refl, p, b);
  feature = λ w v p b. (refl, p, b);
  control = λ w p b. (refl, p, b);
  set_low = λ w v p b. (refl, p, b, refl);
  set_high = λ w v p b. (refl, p, b, refl, refl);
  packet = λ w p b c. ap (λ o. (command o w).phase) c;
  read_12 = λ w lba b p h.
      ap (λ q. take q (read_packet lba)) p ∙ ap has_sector (lba_of-read_packet lba h);
  count_low = λ w lba b p. (refl, b, p);
  count_high = λ w lba b p. (refl, b, p);
  sector = λ w lba i b p h. ap (λ q. sector_of q i) p;
  finished = λ w lba b p. (refl, refl, refl);
}

abbrev drive : AtapiData
drive = record { bus = 0x170; dev = 0 }

-- no device is chosen yet
abbrev start : DriveState World
start = record {
  world = record { phase = idle; waits = false; chosen = none; low = 0; high = 0 };
  memory = λ a. 0;
  primary = none;
  secondary = none;
}

abbrev file : Entry
file = record {
  name = b'A' ∷ [];
  dirent = record { rec_length = 34; lba_l = 20; size_l = 3000; flags = 0; name_len = 1 };
  is_dir = false;
}

-- a directory of one record, with the entry `NM` that names the file "ab", behind a record that is
-- skipped
abbrev directory : List ℕ
directory =
    34 ∷ replicate 33 0
    ++ (42 ∷ 0 ∷ 20 ∷ replicate 7 0)
    ++ (0xB8 ∷ 0x0B ∷ replicate 20 0)
    ++ (1 ∷ b'A' ∷ b'N' ∷ b'M' ∷ 7 ∷ 1 ∷ 0 ∷ b'a' ∷ b'b' ∷ 0 ∷ [])

directory_entries :
    read_entries 8 (λ a. get_or directory a 0) 0
    ≡ ok (
        record {
          name = b'a' ∷ b'b' ∷ [];
          dirent = record { rec_length = 42; lba_l = 20; size_l = 3000; flags = 0; name_len = 1 };
          is_dir = false;
        }
        ∷ [])
unfolding read_entries entry_at dir_rec_at find_name strndup
directory_entries = refl
