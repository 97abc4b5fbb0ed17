-- ===== src/Elf/Caches.antt =====
-- bootmgr/elf32.c: what `resolve_symbol` leaves in the symbol.
use saki_os.Base.{
  ℕ, ◌+◌, ◌/◌, ◌%◌, ◌^◌, ◌<◌, ◌≡◌, refl, subst, none, some, ◌==◌, ok, ◌>>=◌, ok-injective, bind-ok,
  ==→eq, Bool-cases, inl, inr, arith,
}
use Prim.Native.Nat.{bit_and}
use saki_os.CString.{Memory, memset}
use saki_os.CString.Words.{
  address, word_at, half_at, store_half, half_at-store_half, word_at-store_word, store_word-apart,
}
use saki_os.DataStruct.Name.{Name}
use saki_os.Elf.{
  SymbolMap, Linker, shn_abs, shn_undef, shn_common, sht_nobits, stb_weak, cache, sh_get,
  sh_content, string_at, resolve_external_symbol, cached, allocated, external, resolve_symbol,
}

cache-half_at : (symbol ret : ℕ) (m : Memory) → half_at (cache symbol ret m) (symbol + 14) ≡ shn_abs
cache-half_at symbol ret m =
    let a =
      store_word-apart (store_half m (symbol + 14) shn_abs) (symbol + 4) ret (symbol + 14)
        (inr (omega arith)) in
    let b =
      store_word-apart (store_half m (symbol + 14) shn_abs) (symbol + 4) ret (symbol + 14 + 1)
        (inr (omega arith)) in
    let h = half_at-store_half m (symbol + 14) shn_abs in omega (arith, a, b, h)

external-word :
    (symbol_map : SymbolMap) (name : Name) (ret : ℕ)
    → resolve_external_symbol symbol_map name ≡ ok ret
    → ret < 2 ^ 32
unfolding resolve_external_symbol
external-word none name ret e = ground (arith, e)
external-word (some hm) name ret e =
    let (ent, r, f) = bind-ok _ (λ (ent : ℕ). ok (ent % 2 ^ 32)) e in ground (arith, f)

module _ {A : Type 0} (malloc : ℕ → A → Memory → ℕ × A × Memory) (limit : ℕ)
    (symbol_map : SymbolMap) (header : ℕ) where
  -- The symbol says its value.
  pub record IsResolved (symbol value : ℕ) (m : Memory) : Type 0 where
    pub absolute : half_at m (symbol + 14) ≡ shn_abs
    pub stored : word_at m (symbol + 4) ≡ value

  cached-IsResolved :
      (symbol ret value : ℕ) (l l' : Linker A)
      → ret < 2 ^ 32
      → cached malloc limit symbol_map header symbol ret l ≡ ok (value, l')
      → IsResolved symbol value l'.memory
  cached-IsResolved symbol ret value l l' h e =
      let same = ok-injective e in
      subst (λ (p : ℕ × Linker A). IsResolved symbol p.0 p.1.memory) same
        (record {
          absolute = cache-half_at symbol ret l.memory;
          stored = omega (
            arith,
            h,
            word_at-store_word (store_half l.memory (symbol + 14) shn_abs) (symbol + 4) ret,
          );
        })

  -- what was resolved is a word
  allocated-IsResolved :
      (symbol size value : ℕ) (l l' : Linker A)
      → allocated malloc limit symbol_map header symbol size l ≡ ok (value, l')
      → IsResolved symbol value l'.memory
  allocated-IsResolved symbol size value l l' e =
      let (ptr, heap, m) = malloc size l.heap l.memory in
      cached-IsResolved symbol (ptr % 2 ^ 32) value
        (record { memory = memset ptr 0 size m; heap = heap }) l' (omega arith) e

  external-IsResolved :
      (symbol ret value : ℕ) (l l' : Linker A)
      → ret < 2 ^ 32
      → external malloc limit symbol_map header symbol ret l ≡ ok (value, l')
      → IsResolved symbol value l'.memory
  external-IsResolved symbol ret value l l' h e = elim (Bool-cases (ret == 0)) [
    | inr found ↦ cached-IsResolved symbol ret value l l' h (rw found at e)
    | inl missing ↦ elim (Bool-cases (bit_and (l.memory (symbol + 12) / 2 ^ 4) stb_weak == 0)) [
      | inl strong ↦ absurd (ground (arith, e, missing, strong))
      | inr weak ↦ cached-IsResolved symbol 0 value l l' (omega arith) (rw (missing, weak) at e)
    ]
  ]

  named-IsResolved :
      (strtab symbol value : ℕ) (l l' : Linker A)
      → (string_at limit l.memory (address strtab (word_at l.memory symbol)) >>= λ name.
          resolve_external_symbol symbol_map name >>= λ ret.
          external malloc limit symbol_map header symbol ret l)
        ≡ ok (value, l')
      → IsResolved symbol value l'.memory
  named-IsResolved strtab symbol value l l' e =
      let (name, q, f) =
        bind-ok (string_at limit l.memory (address strtab (word_at l.memory symbol)))
          (λ name. resolve_external_symbol symbol_map name >>= λ ret.
            external malloc limit symbol_map header symbol ret l)
          e in
      let (ret, r, g) =
        bind-ok (resolve_external_symbol symbol_map name)
          (λ ret. external malloc limit symbol_map header symbol ret l) f in
      external-IsResolved symbol ret value l l' (external-word symbol_map name ret r) g

  resolve_symbol-IsResolved :
      (strtab symbol value : ℕ) (l l' : Linker A)
      → resolve_symbol malloc limit symbol_map header strtab symbol l ≡ ok (value, l')
      → IsResolved symbol value l'.memory
  unfolding resolve_symbol
  resolve_symbol-IsResolved strtab symbol value l l' e =
      let m = l.memory in
      let section = sh_get m header (half_at m (symbol + 14)) in
      elim (Bool-cases (half_at m (symbol + 14) == shn_abs)) [
        | inl a ↦
            subst (λ (p : ℕ × Linker A). IsResolved symbol p.0 p.1.memory)
              (ok-injective (rw a at e))
              (record { absolute = ==→eq (half_at m (symbol + 14)) shn_abs a; stored = refl })
        | inr na ↦ elim (Bool-cases (half_at m (symbol + 14) == shn_undef)) [
          | inl u ↦ named-IsResolved strtab symbol value l l' (rw (na, u) at e)
          | inr nu ↦ elim (Bool-cases (half_at m (symbol + 14) == shn_common)) [
            | inl c ↦
                allocated-IsResolved symbol (word_at m (symbol + 8)) value l l'
                  (rw (na, nu, c) at e)
            | inr nc ↦ elim (Bool-cases (word_at m (section + 4) == sht_nobits)) [
              | inl n ↦
                  allocated-IsResolved symbol (word_at m (section + 20)) value l l'
                    (rw (na, nu, nc, n) at e)
              | inr nn ↦
                  cached-IsResolved symbol
                    (address (sh_content m header section) (word_at m (symbol + 4))) value l l'
                    (omega arith) (rw (na, nu, nc, nn) at e)
            ]
          ]
        ]
      ]

  -- A symbol that was resolved resolves to the same value from then on, and nothing changes: it is
  -- looked up, and memory is allocated for it, once.
  pub resolve_symbol-again :
      (strtab symbol value : ℕ) (l l' : Linker A)
      → resolve_symbol malloc limit symbol_map header strtab symbol l ≡ ok (value, l')
      → (other : ℕ) → resolve_symbol malloc limit symbol_map header other symbol l' ≡ ok (value, l')
  unfolding resolve_symbol
  resolve_symbol-again strtab symbol value l l' e other =
      let r = resolve_symbol-IsResolved strtab symbol value l l' e in rw (r.absolute, r.stored) refl
