-- ===== src/Tests/Maps.antt =====
-- libs/data-struct/hashmap.c at UTF-16 keys.
use saki_os.Base.{
  ℕ, ◌≡◌, refl, not, some, none, List, [], ◌∷◌, map, if◌then◌else◌, Result, ok, ◌>>=◌, arith,
}
use saki_os.DataStruct.Hashmap.{
  Hashmap, or_null, hashmap_new, hashmap_put, hashmap_get, hashmap_remove, hashmap_dispose,
  hashmap_iterator,
}
use saki_os.DataStruct.Hashmap.Chain.{is_some}
use saki_os.DataStruct.Hashmap.Iteration.{entry, drain, drain-dispose}
use saki_os.DataStruct.Hashmap.Laws.{IsValid, view, new-IsValid, put-view, remove-view}
use saki_os.DataStruct.Key.{same}
use saki_os.Unicode.Hash.Instance.{utf16_key, hashmap_new_utf16}
use saki_os.Unicode.Hash.{unicode_utf16_cmp, unicode_utf16_hash}

abbrev empty : Hashmap (List ℕ) ℕ
empty = hashmap_new 3

abbrev if_key : List ℕ
if_key = b'i' ∷ b'f' ∷ []

empty-IsValid : IsValid empty
empty-IsValid = new-IsValid 3 (omega arith)

put-view_example :
    (hm' : Hashmap (List ℕ) ℕ) × (hashmap_put empty if_key 7
      ≡ ok (hm', not (is_some (view empty if_key))))
    × IsValid hm'
    × ((q : List ℕ) → view hm' q ≡ (if same if_key q then some 7 else view empty q))
put-view_example = put-view empty-IsValid if_key 7

abbrev sample : Hashmap (List ℕ) ℕ
sample = put-view_example.0

remove-view_example :
    (hm' : Hashmap (List ℕ) ℕ) × (hashmap_remove 0 sample if_key
      ≡ ok (hm', or_null 0 (view sample if_key)))
    × IsValid hm'
    × ((q : List ℕ) → view hm' q ≡ (if same if_key q then none else view sample q))
remove-view_example = remove-view put-view_example.2 if_key 0

drain-dispose_example : drain 1 (hashmap_iterator empty) ≡ map entry (hashmap_dispose empty)
drain-dispose_example = drain-dispose empty 1 (unfold hashmap_dispose hashmap_new in omega arith)

-- two puts under one key, and a get of it
abbrev session : Result ℕ
session = do
  let m₀ : Hashmap (List ℕ) ℕ = hashmap_new_utf16 3
  (m₁, _) ← hashmap_put m₀ if_key 7
  (m₂, _) ← hashmap_put m₁ if_key 8
  hashmap_get 0 m₂ if_key

session_runs : session ≡ ok 8
unfolding hashmap_new hashmap_put hashmap_get hashmap_new_utf16 unicode_utf16_cmp unicode_utf16_hash
session_runs = refl
