-- ===== src/Boot/Choice.antt =====
-- bootmgr/main.c: the memory that the page manager gets is memory of the map, above the boot manager.
use saki_os.Base.{
  ℕ, ◌+◌, ◌^◌, ◌≤◌, ◌<◌, ◌≡◌, ◌≢◌, ◌∙◌, refl, false, Bool-cases, inl, inr, le_cases, ◌%◌, ◌==◌,
  Option, none, some, List, [], ◌∷◌, arith,
}
use saki_os.Boot.{MemmapEntry, avail_mem_start, usable, first_usable}

-- The block from `base` on lies in the memory of the entry, above the start of what is given away.
pub record Inside (entry : MemmapEntry) (base limit : ℕ) : Type 0 where
  pub memory : entry.type ≡ 1
  pub above : avail_mem_start ≤ base
  pub from : entry.base ≤ base
  pub to : base + limit ≤ entry.base + entry.limit
  pub word : base < 2 ^ 32

-- An entry that is passed: it is no memory, starts below 1 MiB or beyond 4 GiB, or its end, as 32
-- bits of the sum of its base and its length, is not above the start of what is given away.
pub data Passed (entry : MemmapEntry) : Type 0 where
  reserved : entry.type ≢ 1 → Passed entry
  low : entry.base < 0x100000 → Passed entry
  beyond : 2 ^ 32 ≤ entry.base → Passed entry
  below :
      entry.base < avail_mem_start
      → (entry.base + entry.limit) % 2 ^ 32 ≤ avail_mem_start
      → Passed entry

-- an entry of the list, and those in front of it, which are passed
pub data Behind (entry : MemmapEntry) : List MemmapEntry → Type 0 where
  first : {entries : List MemmapEntry} → Behind entry (entry ∷ entries)
  later :
      {other : MemmapEntry} {entries : List MemmapEntry}
      → Passed other
      → Behind entry entries
      → Behind entry (other ∷ entries)

usable-Inside :
    (entry : MemmapEntry) (base limit : ℕ)
    → usable entry ≡ some (base, limit)
    → Inside entry base limit
unfolding usable
usable-Inside entry base limit e = record {
  memory = ground (arith, e);
  above = ground (arith, e);
  from = ground (arith, e);
  to = ground (arith, e);
  word = ground (arith, e);
}

usable-Passed : (entry : MemmapEntry) → usable entry ≡ none → Passed entry
unfolding usable
usable-Passed entry e = elim (Bool-cases (entry.type == 1)) [
  | inr other ↦ reserved (λ same. never (entry.type) same other)
  | inl memory ↦ elim (le_cases (entry.base) 0x100000) [
    | inl less ↦ low (omega (arith, less))
    | inr enough ↦ elim (le_cases (entry.base) (2 ^ 32)) [
      | inr far ↦ beyond far
      | inl word ↦
          below (ground (arith, e, memory, enough, word)) (ground (arith, e, memory, enough, word))
    ]
  ]
]
  where
    never : (t : ℕ) → t ≡ 1 → (t == 1) ≡ false → ⊥
    never t same other = ground (arith, same, other)

-- the entry whose memory was chosen
abbrev pub Chosen : List MemmapEntry → ℕ → ℕ → Type 0
Chosen entries base limit = (entry : MemmapEntry) × Behind entry entries × Inside entry base limit

-- The block that the page manager is created with lies in one entry of type 1, and starts at 32 MiB
-- or behind. Each entry in front of it is of another type, starts below 1 MiB or beyond 4 GiB, or
-- starts below 32 MiB and has there or below its end, by the sum of base and length as 32 bits. The
-- entries may lie anywhere in 64 bits.
pub first_usable-Inside :
    (entries : List MemmapEntry) (base limit : ℕ)
    → first_usable entries ≡ some (base, limit)
    → Chosen entries base limit
unfolding first_usable
first_usable-Inside [] base limit e = absurd (ground (arith, e))
first_usable-Inside (entry ∷ entries) base limit e =
    at_entry (usable entry) refl (first_usable-Inside entries base limit)
  where
    at_entry :
        (o : Option (ℕ × ℕ))
        → usable entry ≡ o
        → (first_usable entries ≡ some (base, limit) → Chosen entries base limit)
        → Chosen (entry ∷ entries) base limit
    at_entry none q ih =
        let (chosen, b, i) = ih (rw (first_usable, q) at e) in
        (chosen, later (usable-Passed entry q) b, i)
    at_entry (some r) q ih =
        (entry, first, usable-Inside entry base limit (q ∙ rw (first_usable, q) at e))
