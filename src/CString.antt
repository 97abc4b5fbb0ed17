-- ===== src/CString.antt =====
-- libs/clib-independent/string.c over byte-addressed memory. Addresses do not wrap: a block lies
-- below 2^32. `memmove` and `memset` take the block that starts at `dest`.
pub mod Blocks
pub mod Words
use saki_os.Base.{
  ℕ, zero, suc, ◌+◌, ◌-◌, ◌*◌, ◌%◌, ◌^◌, Bool, true, false, ◌&&◌, ◌||◌, Option, none, some, ◌==◌,
  ltb, leb, if◌then◌else◌, ℤ, pos, negsuc, sub_ℕ,
}

abbrev pub Memory : Type 0
Memory = ℕ → ℕ

unfoldable pub store : Memory → ℕ → ℕ → Memory
store m p v a = if a == p then v else m a

-- `for (i = 0; i < count; i++, d++, s++) *d = *s;`
pub copy_up : ℕ → ℕ → ℕ → Memory → Memory
copy_up zero d s m = m
copy_up (suc count) d s m = copy_up count (d + 1) (s + 1) (store m d (m s))

-- `for (i = 0; i < count; i++, d--, s--) *d = *s;`
pub copy_down : ℕ → ℕ → ℕ → Memory → Memory
copy_down zero d s m = m
copy_down (suc count) d s m = copy_down count (d - 1) (s - 1) (store m d (m s))

unfoldable pub memcpy : ℕ → ℕ → ℕ → Memory → Memory
unfolding store copy_up
memcpy dest src count m = copy_up count dest src m

unfoldable pub memmove : ℕ → ℕ → ℕ → Memory → Memory
unfolding store copy_up copy_down
memmove dest src count m =
    if ltb dest src || ltb (src + count) dest
    then copy_up count dest src m
    else copy_down count (dest + count) (src + count) m

-- `for (; count; ptr++, count--) *(char *)ptr = val;`
pub fill : ℕ → ℕ → ℕ → Memory → Memory
fill ptr val zero m = m
fill ptr val (suc count) m = fill (ptr + 1) val count (store m ptr (val % 2 ^ 8))

unfoldable pub memset : ℕ → ℕ → ℕ → Memory → Memory
unfolding store fill
memset dest val count m = fill dest val count m

-- The loops that stop at a NUL take fuel; `none` means that it ran out.
unfoldable pub strlen_loop : ℕ → Memory → ℕ → ℕ → Option ℕ
strlen_loop zero m str counter = none
strlen_loop (suc fuel) m str counter =
    let rest = strlen_loop fuel m (str + 1) (counter + 1) in
    if m str == 0 then some counter else rest

unfoldable pub strlen : ℕ → Memory → ℕ → Option ℕ
unfolding strlen_loop
strlen fuel m str = strlen_loop fuel m str 0

unfoldable pub strnlen_loop : ℕ → Memory → ℕ → ℕ → ℕ → Option ℕ
strnlen_loop zero m str maxlen counter = none
strnlen_loop (suc fuel) m str maxlen counter =
    let rest = strnlen_loop fuel m (str + 1) maxlen (counter + 1) in
    if m str == 0 then some counter else if ltb counter maxlen then rest else some counter

unfoldable pub strnlen : ℕ → Memory → ℕ → ℕ → Option ℕ
unfolding strnlen_loop
strnlen fuel m str maxlen = strnlen_loop fuel m str maxlen 0

-- `char` is signed: its value as an `int`
abbrev pub char_value : ℕ → ℤ
char_value c = if ltb c 128 then pos c else sub_ℕ c 256

-- `*s1 - *s2` of two `char`s
abbrev pub char_diff : ℕ → ℕ → ℤ
char_diff a b = sub_ℕ ((a + 128) % 256) ((b + 128) % 256)

unfoldable pub strcmp : ℕ → Memory → ℕ → ℕ → Option ℤ
strcmp zero m s1 s2 = none
strcmp (suc fuel) m s1 s2 =
    let rest = strcmp fuel m (s1 + 1) (s2 + 1) in
    if m s2 == 0
    then some (char_value (m s1))
    else if (m s1) == (m s2)
    then rest
    else some (char_diff (m s1) (m s2))

unfoldable pub memcmp : ℕ → Memory → ℕ → ℕ → ℤ
memcmp zero m s1 s2 = pos 0
memcmp (suc n) m s1 s2 =
    if m s1 == m s2 then memcmp n m (s1 + 1) (s2 + 1) else char_diff (m s1) (m s2)
