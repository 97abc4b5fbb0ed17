-- ===== src/Elf/Relocation.antt =====
-- bootmgr/elf32.c: what a relocation stores.
use Prim.Native.Nat.{bit_and}
use saki_os.Base.{
  ℕ, ◌+◌, ◌-◌, ◌/◌, ◌%◌, ◌^◌, ◌≤◌, ◌<◌, ◌≡◌, ◌⊎◌, refl, ap, ◌∙◌, false, ◌==◌, if◌then◌else◌, ok,
  inl, inr, arith,
}
use saki_os.CString.{Memory}
use saki_os.CString.Words.{
  address, word_at, half_at, store_word, store_half, word_at-store_word, store_word-apart,
  store_half-apart,
}
use saki_os.DataStruct.Name.{Name}
use saki_os.Elf.{
  SymbolMap, Linker, shn_abs, shn_undef, shn_common, sht_nobits, stb_weak, r_386_32, r_386_pc32,
  cache, sh_get, sh_content, string_at, resolve_external_symbol, resolve_symbol, relocate,
}

-- a word that does not meet the bytes from `symbol + 4` to `symbol + 16`
abbrev pub IsApart : ℕ → ℕ → ℕ → Type 0
IsApart symbol n p = (p + n ≤ symbol + 4) ⊎ (symbol + 16 ≤ p)

cache-apart : (symbol ret p : ℕ) (m : Memory) → IsApart symbol 1 p → cache symbol ret m p ≡ m p
cache-apart symbol ret p m (inl h) =
    store_word-apart (store_half m (symbol + 14) shn_abs) (symbol + 4) ret p (inl (omega arith))
    ∙ store_half-apart m (symbol + 14) shn_abs p (inl (omega arith))
cache-apart symbol ret p m (inr h) =
    store_word-apart (store_half m (symbol + 14) shn_abs) (symbol + 4) ret p (inr (omega arith))
    ∙ store_half-apart m (symbol + 14) shn_abs p (inr (omega arith))

-- within the word, still apart
inside-IsApart : (symbol p i : ℕ) → i < 4 → IsApart symbol 4 p → IsApart symbol 1 (p + i)
inside-IsApart symbol p i h (inl a) = inl (omega (arith, a, h))
inside-IsApart symbol p i h (inr a) = inr (omega (arith, a))

word_at-same :
    (m n : Memory) (symbol p : ℕ)
    → ((q : ℕ) → IsApart symbol 1 q → m q ≡ n q)
    → IsApart symbol 4 p
    → word_at m p ≡ word_at n p
word_at-same m n symbol p same a =
    let b₀ = same (p + 0) (inside-IsApart symbol p 0 (omega arith) a) in
    let b₁ = same (p + 1) (inside-IsApart symbol p 1 (omega arith) a) in
    let b₂ = same (p + 2) (inside-IsApart symbol p 2 (omega arith) a) in
    let b₃ = same (p + 3) (inside-IsApart symbol p 3 (omega arith) a) in
    ground (arith, b₀, b₁, b₂, b₃)

module _ (limit : ℕ) (symbol_map : SymbolMap) (header strtab symbol : ℕ) (m : Memory) where
  abbrev pub index_of : ℕ
  index_of = half_at m (symbol + 14)

  -- What a symbol stands for, where it needs no memory of its own.
  pub data HasValue : ℕ → Type 0 where
    absolute : index_of ≡ shn_abs → HasValue (word_at m (symbol + 4))
    found :
        {name : Name} {ret : ℕ}
        → index_of ≡ shn_undef
        → string_at limit m (address strtab (word_at m symbol)) ≡ ok name
        → resolve_external_symbol symbol_map name ≡ ok ret
        → (ret == 0) ≡ false
        → HasValue ret
    weak :
        {name : Name}
        → index_of ≡ shn_undef
        → string_at limit m (address strtab (word_at m symbol)) ≡ ok name
        → resolve_external_symbol symbol_map name ≡ ok 0
        → (bit_and (m (symbol + 12) / 2 ^ 4) stb_weak == 0) ≡ false
        → HasValue 0
    placed :
        (index_of == shn_undef) ≡ false
        → (index_of == shn_abs) ≡ false
        → (index_of == shn_common) ≡ false
        → (word_at m (sh_get m header index_of + 4) == sht_nobits) ≡ false
        → HasValue
            (address (sh_content m header (sh_get m header index_of)) (word_at m (symbol + 4)))

-- `resolve_symbol` changes nothing but the symbol.
record OnlySymbol {A : Type 0} (symbol : ℕ) (l l' : Linker A) : Type 0 where
  heap : l'.heap ≡ l.heap
  rest : (q : ℕ) → IsApart symbol 1 q → l'.memory q ≡ l.memory q

-- The word at `ref` is the one that was there with `value` added, and for `R_386_PC32` with `ref`
-- subtracted. Nothing else changes but the symbol.
pub record Relocated {A : Type 0} (type symbol value ref : ℕ) (l l' : Linker A) : Type 0 where
  pub word :
      word_at l'.memory ref
      ≡ (value + word_at l.memory ref + (if type == r_386_pc32 then 2 ^ 32 - ref else 0)) % 2 ^ 32
  pub heap : l'.heap ≡ l.heap
  pub rest : (q : ℕ) → IsApart symbol 1 q → (q < ref) ⊎ (ref + 4 ≤ q) → l'.memory q ≡ l.memory q

module _ {A : Type 0} (malloc : ℕ → A → Memory → ℕ × A × Memory) (limit : ℕ)
    (symbol_map : SymbolMap) (header : ℕ) where
  cached-OnlySymbol :
      (symbol ret : ℕ) (l : Linker A)
      → OnlySymbol symbol l (record l { memory = cache symbol ret l.memory })
  cached-OnlySymbol symbol ret l = record {
    heap = refl;
    rest = λ q a. cache-apart symbol ret q l.memory a;
  }

  resolve_symbol-HasValue :
      (strtab symbol : ℕ) (l : Linker A) (value : ℕ)
      → HasValue limit symbol_map header strtab symbol l.memory value
      → (l' : Linker A) × (resolve_symbol malloc limit symbol_map header strtab symbol l
          ≡ ok (value, l'))
        × OnlySymbol symbol l l'
  unfolding resolve_symbol
  resolve_symbol-HasValue strtab symbol l value (absolute e) =
      (l, rw e refl, record { heap = refl; rest = λ q a. refl })
  resolve_symbol-HasValue strtab symbol l value (found u n r f) = (
    record l { memory = cache symbol value l.memory },
    rw (u, n, r, f) refl,
    cached-OnlySymbol symbol value l,
  )
  resolve_symbol-HasValue strtab symbol l value (weak u n r f) = (
    record l { memory = cache symbol 0 l.memory },
    rw (u, n, r, f) refl,
    cached-OnlySymbol symbol 0 l,
  )
  resolve_symbol-HasValue strtab symbol l value (placed u a c n) = (
    record l { memory = cache symbol value l.memory },
    rw (a, u, c, n) refl,
    cached-OnlySymbol symbol value l,
  )

  stored-Relocated :
      (type symbol value ref v : ℕ) (l l' : Linker A)
      → IsApart symbol 4 ref
      → OnlySymbol symbol l l'
      → v % 2 ^ 32
        ≡ (value + word_at l'.memory ref + (if type == r_386_pc32 then 2 ^ 32 - ref else 0))
          % 2 ^ 32
      → Relocated type symbol value ref l (record l' { memory = store_word l'.memory ref v })
  stored-Relocated type symbol value ref v l l' apart s e = record {
    word =
        word_at-store_word l'.memory ref v
        ∙ e
        ∙ ap (λ w. (value + w + (if type == r_386_pc32 then 2 ^ 32 - ref else 0)) % 2 ^ 32)
            (word_at-same l'.memory l.memory symbol ref s.rest apart);
    heap = s.heap;
    rest = λ q a b. store_word-apart l'.memory ref v q b ∙ s.rest q a;
  }

  -- A relocation of type `R_386_32` or `R_386_PC32` for a symbol that has a value stores S + A or
  -- S + A - P, where A is what stood at P and S the symbol's value: its own where it is absolute, its
  -- place in the file where its section has contents, or what was added under its name, and 0 for a
  -- weak symbol without such. Only that word and the symbol change. The word does not meet the symbol.
  pub relocate-Relocated :
      (type strtab symbol value ref : ℕ) (l : Linker A)
      → (type ≡ r_386_32) ⊎ (type ≡ r_386_pc32)
      → ref < 2 ^ 32
      → IsApart symbol 4 ref
      → HasValue limit symbol_map header strtab symbol l.memory value
      → (l' : Linker A) × (relocate malloc limit symbol_map header type strtab symbol ref l ≡ ok l')
        × Relocated type symbol value ref l l'
  unfolding relocate
  relocate-Relocated type strtab symbol value ref l (inl t) h apart v =
      let (l', e, s) = resolve_symbol-HasValue strtab symbol l value v in
      (
        record l' { memory = store_word l'.memory ref (value + word_at l'.memory ref) },
        rw (t, e) refl,
        stored-Relocated type symbol value ref (value + word_at l'.memory ref) l l' apart s
            (ground (arith, t)),
      )
  relocate-Relocated type strtab symbol value ref l (inr t) h apart v =
      let (l', e, s) = resolve_symbol-HasValue strtab symbol l value v in
      (
        record l' {
          memory = store_word l'.memory ref (value + word_at l'.memory ref + 2 ^ 32 - ref);
        },
        rw (t, e) refl,
        stored-Relocated type symbol value ref (value + word_at l'.memory ref + 2 ^ 32 - ref) l l'
            apart s (ground (arith, t, h)),
      )
