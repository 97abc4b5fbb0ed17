-- ===== src/Base/Align.antt =====
-- include/util/alignment.h. `size_t` has 32 bits.
use Prim.Native.Nat.{ℕ, ◌+◌, ◌-◌, ◌*◌, ◌/◌, ◌%◌, ◌^◌}

abbrev pub align_to : ℕ → ℕ → ℕ
align_to val alignment = (val + alignment - 1) % 2 ^ 32 / alignment * alignment % 2 ^ 32

abbrev pub align_down : ℕ → ℕ → ℕ
align_down val alignment = val / alignment * alignment
