-- ===== src/Elf/Symbols.antt =====
-- bootmgr/elf32.c: the table of symbols.
use saki_os.Base.{
  ℕ, ◌%◌, ◌^◌, ◌≡◌, ◌∙◌, refl, ap, sym, Option, none, some, if◌then◌else◌, ok, Bool-cases, inl, inr,
  arith,
}
use saki_os.DataStruct.Key.{same}
use saki_os.DataStruct.Name.{Name, name_key, hashmap_new_string}
use saki_os.DataStruct.Hashmap.{Hashmap, or_null}
use saki_os.DataStruct.Hashmap.Laws.{IsValid, view, new-view, new-IsValid, get-view, put-view}
use saki_os.Elf.{SymbolMap, hash_pool_size, or_new, add_symbol, resolve_external_symbol}

-- the table, where there is one, is valid
abbrev pub IsSymbolMap : SymbolMap → Type 0
IsSymbolMap none = Unit {0}
IsSymbolMap (some hm) = IsValid hm

or_new-IsValid : (symbol_map : SymbolMap) → IsSymbolMap symbol_map → IsValid (or_new symbol_map)
unfolding hashmap_new_string
or_new-IsValid none v = new-IsValid hash_pool_size (omega arith)
or_new-IsValid (some hm) v = v

-- what a symbol resolves to
abbrev bound : Option ℕ → ℕ
bound o = or_null 0 o % 2 ^ 32

resolves :
    (hm : Hashmap Name ℕ) (name : Name)
    → IsValid hm
    → resolve_external_symbol (some hm) name ≡ ok (bound (view hm name))
unfolding resolve_external_symbol
resolves hm name v = rw (get-view 0 name v) refl

resolves-or_new :
    (symbol_map : SymbolMap) (name : Name)
    → IsSymbolMap symbol_map
    → resolve_external_symbol symbol_map name ≡ ok (bound (view (or_new symbol_map) name))
unfolding resolve_external_symbol hashmap_new_string
resolves-or_new none name v =
    ap (λ (o : Option ℕ). ok (bound o)) (sym (new-view {K = Name} {V = ℕ} hash_pool_size name))
resolves-or_new (some hm) name v = resolves hm name v

-- On a table that is valid, or not there yet, `add_symbol` succeeds: the names that compare equal to
-- the one added resolve to its address, as 32 bits, and all others to what they resolved to before.
pub add_symbol-resolves :
    (symbol_map : SymbolMap) (name : Name) (addr : ℕ)
    → IsSymbolMap symbol_map
    → (symbol_map' : SymbolMap) × (add_symbol symbol_map name addr ≡ ok symbol_map')
      × IsSymbolMap symbol_map'
      × ((other : Name)
          → resolve_external_symbol symbol_map' other ≡ (
              if same name other
              then ok (addr % 2 ^ 32)
              else resolve_external_symbol symbol_map other))
unfolding add_symbol
add_symbol-resolves symbol_map name addr v =
    let (hm, e, v', f) = put-view (or_new-IsValid symbol_map v) name addr in
    (
      some hm,
      rw e refl,
      v',
      λ other.
          resolves hm other v'
          ∙ ap (λ (o : Option ℕ). ok (bound o)) (f other)
          ∙ elim (Bool-cases (same name other)) [
            | inl h ↦ rw h refl
            | inr h ↦ rw h (sym (resolves-or_new symbol_map other v))
          ],
    )
