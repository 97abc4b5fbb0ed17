-- ===== src/DataStruct/Hashmap.antt =====
-- libs/data-struct/hashmap.c. A bucket's chain of `node_t` is a list, and `void *` payloads are
-- values of any type `V`, with one value `null` of it that stands for NULL.
pub mod Chain
pub mod Laws
pub mod Iteration
use saki_os.Base.{
  ℕ, zero, suc, ◌+◌, ◌-◌, ◌%◌, ◌<◌, ◌≡◌, Bool, true, false, ◌&&◌, List, [], ◌∷◌, ◌++◌, Option, none,
  some, ◌==◌, if◌then◌else◌, length, get_or, set, replicate, Result, ok, fault, invalid, ◌>>=◌,
  is_zero,
}
use saki_os.DataStruct.Key.{Key}

pub record Node {ℓ} (K V : Type ℓ) : Type ℓ where
  pub hash : ℕ
  pub key : K
  pub item : V

abbrev pub Chain {ℓ} : Type ℓ → Type ℓ → Type ℓ
Chain K V = List (Node K V)

-- `compare` and `hash` are the instance of `Key`.
pub record Hashmap {ℓ} (K V : Type ℓ) : Type ℓ where
  pub size : ℕ
  pub node : List (Chain K V)

-- The iterator's `index` starts at -1 and names the bucket last entered; `entered` is `index + 1`.
-- `kp`, which a call fills in and returns, is part of the call's result.
pub record Iterator {ℓ} (K V : Type ℓ) : Type ℓ where
  pub hm : Hashmap K V
  pub entered : ℕ
  pub next : Chain K V

unfoldable pub hashmap_new {ℓ} : {K V : Type ℓ} → ℕ → Hashmap K V
hashmap_new size = record { size = size; node = replicate size [] }

abbrev pub or_null {ℓ} : {V : Type ℓ} → V → Option V → V
or_null null none = null
or_null null (some v) = v

module _ {ℓ} {K V : Type ℓ} ⦃k : Key K⦄ where
  -- the test of the three loops
  abbrev pub hit : ℕ → K → Node K V → Bool
  hit hash key c = c.hash == hash && is_zero (k.compare c.key key)

  -- `hash(key)`, and the bucket that it names; `%` by 0 traps
  pub bucket : Hashmap K V → K → Result ℕ
  bucket hm key = if hm.size == 0 then fault invalid else ok (k.hash key % hm.size)

  -- the loop of `hashmap_put` from `*n` on
  pub put_chain : ℕ → K → V → Chain K V → Chain K V × Bool
  put_chain hash key item [] = (record { hash = hash; key = key; item = item } ∷ [], true)
  put_chain hash key item (c ∷ n) =
      let rest = put_chain hash key item n in
      if hit hash key c then (record c { item = item } ∷ n, false) else (c ∷ rest.0, rest.1)

  pub get_chain : ℕ → K → Chain K V → Option V
  get_chain hash key [] = none
  get_chain hash key (c ∷ n) = if hit hash key c then some c.item else get_chain hash key n

  pub remove_chain : ℕ → K → Chain K V → Chain K V × Option V
  remove_chain hash key [] = ([], none)
  remove_chain hash key (c ∷ n) =
      let rest = remove_chain hash key n in
      if hit hash key c then (n, some c.item) else (c ∷ rest.0, rest.1)

  unfoldable pub hashmap_put : Hashmap K V → K → V → Result (Hashmap K V × Bool)
  unfolding bucket put_chain
  hashmap_put hm key item = do
    b ← bucket hm key
    let r = put_chain (k.hash key) key item (get_or hm.node b [])
    ok (record hm { node = set hm.node b r.0 }, r.1)

  unfoldable pub hashmap_get : V → Hashmap K V → K → Result V
  unfolding bucket get_chain
  hashmap_get null hm key = do
    b ← bucket hm key
    ok (or_null null (get_chain (k.hash key) key (get_or hm.node b [])))

  unfoldable pub hashmap_remove : V → Hashmap K V → K → Result (Hashmap K V × V)
  unfolding bucket remove_chain
  hashmap_remove null hm key = do
    b ← bucket hm key
    let r = remove_chain (k.hash key) key (get_or hm.node b [])
    ok (record hm { node = set hm.node b r.0 }, or_null null r.1)

module _ {ℓ} {K V : Type ℓ} where
  -- the nodes that `hashmap_dispose` frees, in order: its outer loop from bucket `i` on
  dispose_from : ℕ → ℕ → Hashmap K V → Chain K V
  dispose_from zero i hm = []
  dispose_from (suc rounds) i hm = get_or hm.node i [] ++ dispose_from rounds (i + 1) hm

  unfoldable pub hashmap_dispose : Hashmap K V → Chain K V
  unfolding dispose_from
  hashmap_dispose hm = dispose_from hm.size 0 hm

  unfoldable pub hashmap_iterator : Hashmap K V → Iterator K V
  hashmap_iterator hm = record { hm = hm; entered = 0; next = [] }

  -- the `for` of `hashmap_next`, with the buckets not yet entered as rounds
  next_bucket : ℕ → Hashmap K V → ℕ → Option ((K × V) × Iterator K V)
  next_bucket zero hm i = none
  next_bucket (suc rounds) hm i = elim (get_or hm.node i []) [
    | [] ↦ next_bucket rounds hm (i + 1)
    | mn ∷ rest ↦ some ((mn.key, mn.item), record { hm = hm; entered = i + 1; next = rest })
  ]

  -- `none` is the returned NULL, with the iterator freed
  unfoldable pub hashmap_next : Iterator K V → Option ((K × V) × Iterator K V)
  unfolding next_bucket
  hashmap_next i = elim i.next [
    | n ∷ rest ↦ some ((n.key, n.item), record i { next = rest })
    | [] ↦ next_bucket (i.hm.size - i.entered) i.hm i.entered
  ]
