-- ===== src/Tests/Boot.antt =====
-- bootmgr/main.c.
use saki_os.Base.{◌≡◌, refl, List, [], ◌∷◌, some}
use saki_os.Boot.{MemmapEntry, usable, first_usable, max_addr}
use saki_os.Boot.Choice.{Chosen, first_usable-Inside}

-- low memory, the reserved area, and 64 MiB from 1 MiB on
abbrev memory_map : List MemmapEntry
memory_map =
    record { base = 0; limit = 0x9fc00; type = 1 }
    ∷ record { base = 0x9fc00; limit = 0x60400; type = 2 }
    ∷ record { base = 0x100000; limit = 0x4000000; type = 1 }
    ∷ []

chosen_run : first_usable memory_map ≡ some (0x2000000, 0x2100000)
unfolding first_usable usable
chosen_run = refl

first_usable-Inside_example : Chosen memory_map 0x2000000 0x2100000
first_usable-Inside_example = first_usable-Inside memory_map 0x2000000 0x2100000 chosen_run

max_addr_run :
    max_addr (record { base = 0xfffff000; limit = 0x2000; type = 1 } ∷ memory_map) ≡ 0xffffffff
unfolding max_addr
max_addr_run = refl
