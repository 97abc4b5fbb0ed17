-- ===== src/Alloc/PageMan/Returns.antt =====
-- libs/mem-alloc/pageman.c: where the bits match the lists, allocation and release return.
use saki_os.Base.{
  ℕ, zero, suc, ◌+◌, ◌-◌, ◌%◌, ◌^◌, ◌<◌, ◌≡◌, ◌∙◌, refl, ap, subst, false, List, [], ◌∷◌, Option,
  none, some, get_or, set, length, length-set, get_or-set, ok, arith,
}
use saki_os.Alloc.PageMan.{
  PageMan, total_level, block_size, get_offset, get_buddy, free_up, pageman_free, alloc_down,
  pageman_alloc,
}
use saki_os.Alloc.PageMan.Conserve.{IsValid}
use saki_os.Alloc.PageMan.Marks.{
  IsMarked, AreWords, pairs, switched, switched-IsMarked, pairs-cons, pairs-taken, empty-clear,
  first-set,
}

-- A free that joins nothing.
pub free_clear :
    (height : ℕ) (man : PageMan) (addr level : ℕ)
    → level + suc height ≡ total_level
    → length man.lists ≡ total_level
    → IsMarked man
    → addr < 2 ^ 32
    → man.bitmaps level (get_offset man.base addr level) ≡ false
    → (free_up (suc height) man addr level
        ≡ ok (
            switched man level
              (get_offset man.base addr level)
              (addr ∷ get_or man.lists level [])
              ((man.spare + block_size level) % 2 ^ 32)))
      × IsMarked (
          switched man level
            (get_offset man.base addr level)
            (addr ∷ get_or man.lists level [])
            ((man.spare + block_size level) % 2 ^ 32))
unfolding free_up AreWords
free_clear height man addr level h w v word clear = (
  rw (clear) refl,
  switched-IsMarked man level (get_offset man.base addr level) (addr ∷ get_or man.lists level [])
      ((man.spare + block_size level) % 2 ^ 32) (omega arith) v (word, v.words level)
      (λ i. pairs-cons man level addr i (omega arith) v clear),
)

-- `man'` has the lists and the bits of `man` below a level.
abbrev SameBelow : ℕ → PageMan → PageMan → Type 0
SameBelow level man man' = (l : ℕ) → l < level → get_or man'.lists l [] ≡ get_or man.lists l []

module _ (man : PageMan) (w : length man.lists ≡ total_level) (v : IsMarked man) where
  taken_first :
      (level first : ℕ) (rest : List ℕ) (spare : ℕ)
      → level < total_level
      → get_or man.lists level [] ≡ first ∷ rest
      → IsMarked (switched man level (get_offset man.base first level) rest spare)
  unfolding AreWords pairs
  taken_first level first rest spare h e =
      switched-IsMarked man level (get_offset man.base first level) rest spare (omega arith) v
        ((subst AreWords e (v.words level)).1)
        (λ i.
          pairs-taken man level first i rest h v (first-set man level first rest h v e)
            (ap (λ l. pairs man.base level l i) e))

pub get_buddy-word : (base addr level : ℕ) → get_buddy base addr level < 2 ^ 32
unfolding get_buddy
get_buddy-word base addr level = omega arith

pub pageman_free-free_up :
    (height : ℕ) (man : PageMan) (addr level : ℕ)
    → level + height ≡ total_level
    → pageman_free man addr level ≡ free_up height man addr level
unfolding pageman_free
pageman_free-free_up height man addr level h = ap (λ n. free_up n man addr level) (omega arith)

set-below :
    (ls : List (List ℕ)) (level l : ℕ) (list : List ℕ)
    → level < length ls
    → l < level
    → get_or (set ls level list) l [] ≡ get_or ls l []
set-below ls level l list h k = get_or-set ls level l list [] h ∙ ground arith

-- What allocation from a level ends with.
record Handed (man : PageMan) (level height : ℕ) : Type 0 where
  answer : Option ℕ
  left : PageMan
  run : alloc_down height man level ≡ ok (answer, left)
  marked : IsMarked left
  width : length left.lists ≡ total_level
  below : SameBelow level man left

alloc_down-Handed :
    (height : ℕ) (man : PageMan) (level : ℕ)
    → level + height ≡ total_level
    → length man.lists ≡ total_level
    → IsMarked man
    → Handed man level height
unfolding alloc_down
alloc_down-Handed zero man level h w v = record {
  answer = none;
  left = man;
  run = refl;
  marked = v;
  width = w;
  below = λ l k. refl;
}
alloc_down-Handed (suc height) man level h w v =
    at_list (get_or man.lists level []) refl
      (alloc_down-Handed height man (level + 1) (omega arith) w v)
  where
    at_split :
        (answer : Option ℕ) (left : PageMan)
        → get_or man.lists level [] ≡ []
        → alloc_down height man (level + 1) ≡ ok (answer, left)
        → IsMarked left
        → length left.lists ≡ total_level
        → SameBelow (level + 1) man left
        → Handed man level (suc height)
    at_split none left e run v' w' same = record {
      answer = none;
      left = left;
      run = rw (alloc_down, e, run) refl;
      marked = v';
      width = w';
      below = λ l k. same l (omega arith);
    }
    at_split (some addr) left e run v' w' same =
        let buddy = get_buddy left.base addr level in
        let clear =
          empty-clear left level (get_offset left.base buddy level) (omega arith) v'
            (same level (omega arith) ∙ e) in
        let (freed, v'') =
          free_clear height left buddy level h w' v' (get_buddy-word left.base addr level) clear in
        record {
          answer = some addr;
          left =
              switched left level (get_offset left.base buddy level)
                (buddy ∷ get_or left.lists level []) ((left.spare + block_size level) % 2 ^ 32);
          run =
              rw (alloc_down, e, run)
                (rw (pageman_free-free_up (suc height) left buddy level h, freed) refl);
          marked = v'';
          width = length-set left.lists level _ ∙ w';
          below = λ l k.
              set-below left.lists level l (buddy ∷ get_or left.lists level [])
                (rw (w') (omega arith)) k
              ∙ same l (omega arith);
        }

    at_list :
        (list : List ℕ)
        → get_or man.lists level [] ≡ list
        → Handed man (level + 1) height
        → Handed man level (suc height)
    at_list [] e a = at_split a.answer a.left e a.run a.marked a.width a.below
    at_list (first ∷ rest) e a = record {
      answer = some first;
      left =
          switched man level (get_offset man.base first level) rest
            ((man.spare + 2 ^ 32 - block_size level) % 2 ^ 32);
      run = rw (alloc_down, e) refl;
      marked = taken_first man w v level first rest _ (omega arith) e;
      width = length-set man.lists level rest ∙ w;
      below = λ l k. set-below man.lists level l rest (omega arith) k;
    }

-- On a valid manager whose bits match its lists, `pageman_alloc` returns, with a block or with NULL,
-- and the bits match again.
pub pageman_alloc-Returns :
    (man : PageMan) (level : ℕ)
    → level < total_level
    → IsValid man
    → IsMarked man
    → (r : Option ℕ) × (man' : PageMan) × (pageman_alloc man level ≡ ok (r, man')) × IsMarked man'
unfolding pageman_alloc
pageman_alloc-Returns man level h v k =
    let a = alloc_down-Handed (total_level - level) man level (omega arith) v.width k in
    (a.answer, a.left, a.run, a.marked)
