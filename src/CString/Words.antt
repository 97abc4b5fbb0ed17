-- ===== src/CString/Words.antt =====
-- The little-endian words and half words of memory that packed structures consist of, as the
-- machine stores them.
use saki_os.Base.{ℕ, ◌+◌, ◌*◌, ◌/◌, ◌%◌, ◌^◌, ◌≤◌, ◌<◌, ◌≡◌, ◌⊎◌, arith}
use saki_os.CString.{Memory, store}

-- the sum of a pointer and a number
abbrev pub address : ℕ → ℕ → ℕ
address p n = (p + n) % 2 ^ 32

abbrev pub word_at : Memory → ℕ → ℕ
word_at m a = m a + m (a + 1) * 2 ^ 8 + m (a + 2) * 2 ^ 16 + m (a + 3) * 2 ^ 24

abbrev pub half_at : Memory → ℕ → ℕ
half_at m a = m a + m (a + 1) * 2 ^ 8

unfoldable pub store_half : Memory → ℕ → ℕ → Memory
unfolding store
store_half m a v = store (store m a (v % 2 ^ 8)) (a + 1) (v / 2 ^ 8 % 2 ^ 8)

unfoldable pub store_word : Memory → ℕ → ℕ → Memory
unfolding store_half
store_word m a v = store_half (store_half m a (v % 2 ^ 16)) (a + 2) (v / 2 ^ 16 % 2 ^ 16)

pub half_at-store_half : (m : Memory) (a v : ℕ) → half_at (store_half m a v) a ≡ v % 2 ^ 16
unfolding store_half store
half_at-store_half m a v = ground arith

pub store_half-apart : (m : Memory) (a v q : ℕ) → (q < a) ⊎ (a + 2 ≤ q) → store_half m a v q ≡ m q
unfolding store_half store
store_half-apart m a v q h = ground (arith, h)

pub store_word-apart : (m : Memory) (a v q : ℕ) → (q < a) ⊎ (a + 4 ≤ q) → store_word m a v q ≡ m q
unfolding store_word store_half store
store_word-apart m a v q h = ground (arith, h)

-- A word is read back.
pub word_at-store_word : (m : Memory) (a v : ℕ) → word_at (store_word m a v) a ≡ v % 2 ^ 32
unfolding store_word store_half store
word_at-store_word m a v = ground arith
