-- ===== src/Tests/Programs.antt =====
-- bootmgr/elf32.c.
use saki_os.Base.{
  ℕ, ◌+◌, ◌-◌, ◌%◌, ◌^◌, ◌≡◌, refl, [], ◌∷◌, none, ◌==◌, if◌then◌else◌, ok, inr, ◌>>=◌, arith,
}
use saki_os.CString.{Memory, store}
use saki_os.CString.Words.{word_at, store_word, store_half}
use saki_os.DataStruct.Hashmap.{hashmap_new, hashmap_put, hashmap_get}
use saki_os.DataStruct.Name.{
  Name, name_key, IsText, hashmap_new_string, string_hash, string_comparator,
}
use saki_os.DataStruct.Key.{same}
use saki_os.Elf.Symbols.{IsSymbolMap, add_symbol-resolves}
use saki_os.Elf.{
  Linker, SymbolMap, r_386_pc32, cache, add_symbol, resolve_external_symbol, resolve_symbol,
  relocate,
}
use saki_os.Elf.Caches.{resolve_symbol-again}
use saki_os.Elf.Relocation.{Relocated, relocate-Relocated, placed}

-- a file at 0x1000 whose section 1 has its contents at 0x100, a symbol at 0x1200 that stands 8 bytes
-- in it, and a word 4 at 0x1300
abbrev image : Memory
image a =
    if a == 0x1020
    then 0x40
    else if a == 0x102e
    then 40
    else if a == 0x106c
    then 1
    else if a == 0x1079
    then 1
    else if a == 0x1204
    then 8
    else if a == 0x120e
    then 1
    else if a == 0x1300
    then 4
    else 0

abbrev loaded : Linker (Unit {0})
loaded = record { memory = image; heap = tt }

-- an allocator that has one block to give
abbrev one_block : ℕ → Unit {0} → Memory → ℕ × Unit {0} × Memory
one_block size heap m = (0x4000, heap, m)

abbrev resolved : Linker (Unit {0})
resolved = record loaded { memory = cache 0x1200 0x1108 image }

resolved_run : resolve_symbol one_block 20 none 0x1000 0x1400 0x1200 loaded ≡ ok (0x1108, resolved)
unfolding resolve_symbol
resolved_run = refl

resolve_symbol-again_example :
    resolve_symbol one_block 20 none 0x1000 0x1500 0x1200 resolved ≡ ok (0x1108, resolved)
resolve_symbol-again_example =
    resolve_symbol-again one_block 20 none 0x1000 0x1400 0x1200 0x1108 loaded resolved resolved_run
      0x1500

relocate-Relocated_example :
    (l' : Linker (Unit {0})) × (relocate one_block 20 none 0x1000 r_386_pc32 0x1400 0x1200 0x1300
        loaded
      ≡ ok l')
    × Relocated r_386_pc32 0x1200 0x1108 0x1300 loaded l'
relocate-Relocated_example =
    relocate-Relocated one_block 20 none 0x1000 r_386_pc32 0x1400 0x1200 0x1108 0x1300 loaded
      (inr refl) (omega arith) (inr (omega arith)) (placed refl refl refl refl)

-- the word after the relocation: 0x1108 + 4 - 0x1300
relocated_word :
    (relocate one_block 20 none 0x1000 r_386_pc32 0x1400 0x1200 0x1300 loaded >>= λ l.
    ok (word_at l.memory 0x1300))
    ≡ ok (0x1108 + 4 + 2 ^ 32 - 0x1300)
unfolding relocate resolve_symbol store_word store_half store
relocated_word = refl

puts_text : IsText (b'p' ∷ b'u' ∷ b't' ∷ b's' ∷ [])
unfolding IsText
puts_text = (
  omega arith,
  omega arith,
  (omega arith, omega arith, (omega arith, omega arith, (omega arith, omega arith, tt))),
)

abbrev puts : Name
puts = record { chars = b'p' ∷ b'u' ∷ b't' ∷ b's' ∷ []; text = puts_text }

symbol_added :
    (add_symbol none puts 0x8000 >>= λ symbols. resolve_external_symbol symbols puts) ≡ ok 0x8000
unfolding add_symbol resolve_external_symbol hashmap_put hashmap_get hashmap_new_string hashmap_new
    string_hash string_comparator
symbol_added = refl

add_symbol-resolves_example :
    (symbols : SymbolMap) × (add_symbol none puts 0x8000 ≡ ok symbols)
    × IsSymbolMap symbols
    × ((other : Name)
        → resolve_external_symbol symbols other
          ≡ (if same puts other then ok (0x8000 % 2 ^ 32) else resolve_external_symbol none other))
add_symbol-resolves_example = add_symbol-resolves none puts 0x8000 tt
