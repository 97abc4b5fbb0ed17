-- ===== src/Elf.antt =====
-- bootmgr/elf32.c with include/elf/elf32.h. The structures of the file are words of memory at their
-- offsets. `malloc` takes the size, the allocator's state and the memory.
pub mod Symbols
pub mod Caches
pub mod Relocation
use Prim.Native.Nat.{bit_and}
use saki_os.Base.{
  ℕ, zero, suc, ◌+◌, ◌-◌, ◌*◌, ◌/◌, ◌%◌, ◌^◌, Bool, true, false, not, Option, none, some, List, [],
  ◌∷◌, ◌==◌, ltb, if◌then◌else◌, is_zero, Result, ok, fault, assertion, out_of_fuel, ◌>>=◌, ◌>>◌,
  assert,
}
use saki_os.CString.{Memory, memset}
use saki_os.DataStruct.Hashmap.{Hashmap, hashmap_put, hashmap_get}
use saki_os.DataStruct.Name.{Name, name_key, hashmap_new_string, name_at, text_cmp}
use saki_os.CString.Words.{address, word_at, half_at, store_word, store_half}

abbrev pub shn_undef : ℕ
shn_undef = 0

abbrev pub shn_abs : ℕ
shn_abs = 0xfff1

abbrev pub shn_common : ℕ
shn_common = 0xfff2

abbrev pub sht_symtab : ℕ
sht_symtab = 2

abbrev pub sht_nobits : ℕ
sht_nobits = 8

abbrev pub sht_rel : ℕ
sht_rel = 9

abbrev pub stb_weak : ℕ
stb_weak = 2

abbrev pub r_386_32 : ℕ
r_386_32 = 1

abbrev pub r_386_pc32 : ℕ
r_386_pc32 = 2

-- the fields that are read of `Elf32_Ehdr`, `Elf32_Shdr`, `Elf32_Sym` and `Elf32_Rel`
abbrev pub e_shoff : Memory → ℕ → ℕ
e_shoff m header = word_at m (header + 32)

abbrev pub e_shentsize : Memory → ℕ → ℕ
e_shentsize m header = half_at m (header + 46)

abbrev pub e_shnum : Memory → ℕ → ℕ
e_shnum m header = half_at m (header + 48)

abbrev pub sh_type : Memory → ℕ → ℕ
sh_type m section = word_at m (section + 4)

abbrev pub sh_offset : Memory → ℕ → ℕ
sh_offset m section = word_at m (section + 16)

abbrev pub sh_size : Memory → ℕ → ℕ
sh_size m section = word_at m (section + 20)

abbrev pub sh_info : Memory → ℕ → ℕ
sh_info m section = word_at m (section + 28)

abbrev pub st_name : Memory → ℕ → ℕ
st_name m symbol = word_at m symbol

abbrev pub st_value : Memory → ℕ → ℕ
st_value m symbol = word_at m (symbol + 4)

abbrev pub st_size : Memory → ℕ → ℕ
st_size m symbol = word_at m (symbol + 8)

abbrev pub st_info : Memory → ℕ → ℕ
st_info m symbol = m (symbol + 12)

abbrev pub st_shndx : Memory → ℕ → ℕ
st_shndx m symbol = half_at m (symbol + 14)

abbrev pub r_offset : Memory → ℕ → ℕ
r_offset m rel = word_at m rel

abbrev pub r_info : Memory → ℕ → ℕ
r_info m rel = word_at m (rel + 4)

-- `ELF32_SH_GET`
abbrev pub sh_get : Memory → ℕ → ℕ → ℕ
sh_get m header index = address header (e_shoff m header + e_shentsize m header * index)

-- `ELF32_SH_LINK`
abbrev pub sh_link : Memory → ℕ → ℕ → ℕ
sh_link m header section = sh_get m header (word_at m (section + 24))

-- `ELF32_SH_CONTENT`
abbrev pub sh_content : Memory → ℕ → ℕ → ℕ
sh_content m header section = address header (sh_offset m section)

-- "main"
abbrev pub main_chars : List ℕ
main_chars = b'm' ∷ b'a' ∷ b'i' ∷ b'n' ∷ []

abbrev pub SymbolMap : Type 0
SymbolMap = Option (Hashmap Name ℕ)

abbrev pub hash_pool_size : ℕ
hash_pool_size = 31

abbrev pub or_new : SymbolMap → Hashmap Name ℕ
or_new none = hashmap_new_string hash_pool_size
or_new (some hm) = hm

unfoldable pub add_symbol : SymbolMap → Name → ℕ → Result SymbolMap
unfolding hashmap_put hashmap_new_string
add_symbol symbol_map name addr = do r ← hashmap_put (or_new symbol_map) name addr; ok (some r.0)

unfoldable pub resolve_external_symbol : SymbolMap → Name → Result ℕ
unfolding hashmap_get
resolve_external_symbol none name = ok 0
resolve_external_symbol (some hm) name = do ent ← hashmap_get 0 hm name; ok (ent % 2 ^ 32)

-- the string at an address, where it ends within the limit
abbrev pub string_at : ℕ → Memory → ℕ → Result Name
string_at limit m p = elim (name_at limit m p) [ none ↦ fault out_of_fuel | some name ↦ ok name ]

-- what the linker changes: the memory and the state of the allocator
pub record Linker (A : Type 0) : Type 0 where
  pub memory : Memory
  pub heap : A

-- `symbol->st_shndx = SHN_ABS; symbol->st_value = ret;`
abbrev pub cache : ℕ → ℕ → Memory → Memory
cache symbol ret m = store_word (store_half m (symbol + 14) shn_abs) (symbol + 4) ret

module _ {A : Type 0} (malloc : ℕ → A → Memory → ℕ × A × Memory) (limit : ℕ)
    (symbol_map : SymbolMap) (header : ℕ) where
  -- the result, cached in the symbol
  abbrev pub cached : ℕ → ℕ → Linker A → Result (ℕ × Linker A)
  cached symbol ret l = ok (ret, record l { memory = cache symbol ret l.memory })

  -- `malloc` and `memset`
  abbrev pub allocated : ℕ → ℕ → Linker A → Result (ℕ × Linker A)
  allocated symbol size l =
      let (ptr, heap, m) = malloc size l.heap l.memory in
      cached symbol (ptr % 2 ^ 32) (record { memory = memset ptr 0 size m; heap = heap })

  -- behind `resolve_external_symbol`; a weak symbol may stay without a value
  abbrev pub external : ℕ → ℕ → Linker A → Result (ℕ × Linker A)
  external symbol ret l =
      if not (ret == 0)
      then cached symbol ret l
      else if bit_and (st_info l.memory symbol / 2 ^ 4) stb_weak == 0
      then fault assertion
      else cached symbol 0 l

  unfoldable pub resolve_symbol : ℕ → ℕ → Linker A → Result (ℕ × Linker A)
  unfolding resolve_external_symbol name_at memset
  resolve_symbol strtab symbol l =
      let m = l.memory in
      let shndx = st_shndx m symbol in
      let value = st_value m symbol in
      if shndx == shn_abs
      then ok (value, l)
      else if shndx == shn_undef
      then (do
        name ← string_at limit m (address strtab (st_name m symbol))
        ret ← resolve_external_symbol symbol_map name
        external symbol ret l)
      else if shndx == shn_common
      then allocated symbol (st_size m symbol) l
      else (let section = sh_get m header shndx in
          if sh_type m section == sht_nobits
          then allocated symbol (sh_size m section) l
          else cached symbol (address (sh_content m header section) value) l)

  -- the cases of the relocation's type, for the symbol `assoc` and the word at `ref`
  unfoldable pub relocate : ℕ → ℕ → ℕ → ℕ → Linker A → Result (Linker A)
  unfolding resolve_symbol
  relocate type strtab assoc ref l =
      if type == r_386_32
      then (do
        (s, l) ← resolve_symbol strtab assoc l
        ok (record l { memory = store_word l.memory ref (s + word_at l.memory ref) }))
      else if type == r_386_pc32
      then (do
        (s, l) ← resolve_symbol strtab assoc l
        ok (record l {
          memory = store_word l.memory ref (s + word_at l.memory ref + 2 ^ 32 - ref);
        }))
      else fault assertion

  -- the loop over the entries from `rel` on
  unfoldable pub rel_loop : ℕ → ℕ → ℕ → ℕ → ℕ → Linker A → Result (Linker A)
  unfolding relocate
  rel_loop zero rel target strtab table l = ok l
  rel_loop (suc size) rel target strtab table l = do
    let m = l.memory
    let info = r_info m rel
    l ←
        relocate (info % 2 ^ 8) strtab (address table (info / 2 ^ 8 * 16))
          (address (sh_content m header target) (r_offset m rel)) l
    rel_loop size (rel + 8) target strtab table l

  -- the `switch` on the type of a section
  unfoldable pub link_section : ℕ → Linker A → Result (Linker A)
  unfolding rel_loop
  link_section section l =
      let m = l.memory in
      if sh_type m section == sht_rel
      then (let symbols = sh_link m header section in
          rel_loop (sh_size m section / 8) (sh_content m header section)
            (sh_get m header (sh_info m section)) (sh_content m header (sh_link m header symbols))
            (sh_content m header symbols) l)
      else ok l

  -- the loop from section `i` on; `e_shnum` has 16 bits
  unfoldable pub link_loop : ℕ → ℕ → Linker A → Result (Linker A)
  unfolding link_section
  link_loop zero i l = fault out_of_fuel
  link_loop (suc rounds) i l =
      let next = link_section (sh_get l.memory header i) l >>= link_loop rounds (i + 1) in
      if ltb i (e_shnum l.memory header) then next else ok l

  unfoldable pub link_elf32 : Linker A → Result (Linker A)
  unfolding link_loop
  link_elf32 l = link_loop (2 ^ 16) 0 l

-- the last of the symbols from `symbol` on that is named `main`, or else `entrance`
unfoldable pub find_main : ℕ → Memory → ℕ → ℕ → ℕ → ℕ → ℕ → Result ℕ
unfolding name_at text_cmp
find_main limit m header strtab zero symbol entrance = ok entrance
find_main limit m header strtab (suc size) symbol entrance = do
  name ← string_at limit m (address strtab (st_name m symbol))
  let section = sh_get m header (st_shndx m symbol)
  find_main limit m header strtab size (symbol + 16) (
      if is_zero (text_cmp name.chars main_chars)
      then address (sh_content m header section) (st_value m symbol)
      else entrance)

-- the loop over the sections from `i` on
unfoldable pub find_loop : ℕ → Memory → ℕ → ℕ → ℕ → ℕ → Result ℕ
unfolding find_main
find_loop limit m header zero i entrance = fault out_of_fuel
find_loop limit m header (suc rounds) i entrance =
    let section = sh_get m header i in
    let next =
      (if sh_type m section == sht_symtab
        then find_main limit m header (sh_content m header (sh_link m header section))
            (sh_size m section / 16) (sh_content m header section) entrance
        else ok entrance)
      >>= find_loop limit m header rounds (i + 1) in
    if ltb i (e_shnum m header) then next else ok entrance

-- `exec_elf32` up to the call of the address
unfoldable pub exec_elf32 : ℕ → Memory → ℕ → Result ℕ
unfolding find_loop
exec_elf32 limit m header = do
  entrance ← find_loop limit m header (2 ^ 16) 0 0
  assert (not (entrance == 0)) >> ok entrance
