-- ===== src/Tests/Pages.antt =====
-- libs/mem-alloc/pageman.c.
use saki_os.Base.{
  ℕ, ◌≡◌, ◌∙◌, refl, sym, subst, false, List, [], ◌∷◌, Option, some, ok, replicate, set,
  get_or-replicate, ok-injective, arith,
}
use saki_os.Alloc.PageMan.Create.{
  pageman_create, page_cost, bitmap_bytes, pageman_free_block, free_ascending, free_whole,
  free_descending, free_piece,
}
use saki_os.Alloc.PageMan.Marks.{IsMarked, pairs, AreWords}
use saki_os.Alloc.PageMan.Release.{IsDisjoint, pageman_free-Returns}
use saki_os.Alloc.PageMan.Returns.{pageman_alloc-Returns}
use saki_os.Alloc.PageMan.Alloc.{Answer, pageman_alloc-Answer}
use saki_os.Alloc.PageMan.Conserve.{IsValid, Freed, free_at, pageman_free-Freed}
use saki_os.Alloc.PageMan.Cover.{AreAligned, count, cover}
use saki_os.Alloc.PageMan.{
  PageMan, bitmap_switch, pageman_free, pageman_alloc, free_up, alloc_down, get_offset, get_buddy,
  get_super, list_remove,
}

-- a manager of the memory at 1 MiB that has no block yet
abbrev nothing : PageMan
nothing = record {
  bitmaps = λ level index. false;
  lists = replicate 18 [];
  base = 0x100000;
  limit = 0x100;
  spare = 0;
}

nothing-IsValid : IsValid nothing
unfolding AreAligned
nothing-IsValid = record {
  base = omega arith;
  width = refl;
  aligned = λ level. rw (get_or-replicate {A = List ℕ} 18 level []) tt;
}

-- with the first page
abbrev page : PageMan
page = record nothing {
  bitmaps = bitmap_switch nothing.bitmaps 0 0;
  lists = set nothing.lists 0 (0x100000 ∷ []);
  spare = 0x1000;
}

page_runs : pageman_free nothing 0x100000 0 ≡ ok page
unfolding pageman_free free_up get_offset get_buddy get_super list_remove
page_runs = refl

page-IsValid : IsValid page
page-IsValid =
    (pageman_free-Freed nothing 0x100000 0 page (omega arith) nothing-IsValid refl page_runs).valid

-- the second page joins the first
abbrev pages : PageMan
pages = record nothing {
  bitmaps = bitmap_switch (bitmap_switch page.bitmaps 0 0) 1 0;
  lists = set (set page.lists 0 []) 1 (0x100000 ∷ []);
  spare = 0x2000;
}

pages_runs : pageman_free page 0x101000 0 ≡ ok pages
unfolding pageman_free free_up get_offset get_buddy get_super list_remove
pages_runs = refl

pageman_free-Freed_example : Freed page 0x101000 0 pages
pageman_free-Freed_example =
    pageman_free-Freed page 0x101000 0 pages (omega arith) page-IsValid refl pages_runs

pages-IsValid : IsValid pages
pages-IsValid =
    (pageman_free-Freed page 0x101000 0 pages (omega arith) page-IsValid refl pages_runs).valid

-- a page is sliced off again
abbrev sliced : PageMan
sliced = record pages {
  bitmaps = bitmap_switch (bitmap_switch pages.bitmaps 1 0) 0 0;
  lists = set (set pages.lists 1 []) 0 (0x101000 ∷ []);
  spare = 0x1000;
}

sliced_runs : pageman_alloc pages 0 ≡ ok (some 0x100000, sliced)
unfolding pageman_alloc alloc_down pageman_free free_up get_offset get_buddy get_super list_remove
sliced_runs = refl

pageman_alloc-Answer_example : Answer pages 0 (some 0x100000) sliced
pageman_alloc-Answer_example =
    pageman_alloc-Answer pages 0 (some 0x100000) sliced (omega arith) pages-IsValid sliced_runs

nothing-IsMarked : IsMarked nothing
unfolding pairs AreWords
nothing-IsMarked = record {
  marks = λ level i h. rw (get_or-replicate {A = List ℕ} 18 level []) refl;
  words = λ level. rw (get_or-replicate {A = List ℕ} 18 level []) tt;
}

nothing_free : (q : ℕ) → free_at nothing q ≡ 0
unfolding cover count
nothing_free q = refl

pageman_free-Returns_example :
    (man' : PageMan) × (pageman_free nothing 0x100000 0 ≡ ok man') × IsMarked man' × IsDisjoint man'
pageman_free-Returns_example =
    pageman_free-Returns nothing 0x100000 0 (omega arith) (omega arith) nothing-IsValid
      nothing-IsMarked refl (λ q. omega (arith, nothing_free q)) (λ q h. nothing_free q) refl

page-IsMarked : IsMarked page
page-IsMarked =
    let (man', run, marked, d) =
      pageman_free-Returns nothing 0x100000 0 (omega arith) (omega arith) nothing-IsValid
        nothing-IsMarked refl (λ q. omega (arith, nothing_free q)) (λ q h. nothing_free q) refl in
    subst (λ m. IsMarked m) (ok-injective (sym run ∙ page_runs)) marked

pageman_alloc-Returns_example :
    (r : Option ℕ) × (man' : PageMan) × (pageman_alloc page 0 ≡ ok (r, man')) × IsMarked man'
pageman_alloc-Returns_example =
    pageman_alloc-Returns page 0 (omega arith) page-IsValid page-IsMarked

-- 512 pages from 1 MiB on: the manager takes one of them
created_cost : page_cost 0x100000 512 ≡ 1
unfolding page_cost bitmap_bytes get_offset
created_cost = refl

-- the 511 pages behind it are cut into a page, two, four, and so on up to 256
created : (man : PageMan) × (pageman_create 0x100000 512 0x100000 512 ≡ ok man)
unfolding pageman_create page_cost bitmap_bytes get_offset pageman_free_block free_ascending
    free_whole free_descending free_piece pageman_free free_up get_buddy get_super list_remove
created = (_, refl)
