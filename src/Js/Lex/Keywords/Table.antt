-- ===== src/Js/Lex/Keywords/Table.antt =====
-- `lookupKeyword` of libs/js/lex.c reads the table that is written out in `initKeyword`.
use saki_os.Base.{
  ℕ, ◌≡◌, refl, ap, ◌∙◌, List, [], ◌∷◌, Option, none, some, Result, ok, ◌>>=◌, if◌then◌else◌, arith,
}
use saki_os.DataStruct.Hashmap.{Hashmap, or_null}
use saki_os.DataStruct.Hashmap.Laws.{IsValid, view, new-IsValid, new-view, get-view, put-view}
use saki_os.DataStruct.Key.{same}
use saki_os.Js.Lex.Keywords.{Entries, keyword_map, fill_keywords, init_keyword, lookup_keyword}
use saki_os.Unicode.Convert.{unicode_to_utf16}
use saki_os.Unicode.Hash.Instance.{utf16_key, hashmap_new_utf16}

-- the value of the last entry under a name, and `o` without one
pub last_value : Entries → List ℕ → Option ℕ → Option ℕ
last_value [] q o = o
last_value ((name, value) ∷ rest) q o = last_value rest q (if same name q then some value else o)

abbrev AllAscii : Entries → Type 0
AllAscii [] = Unit
AllAscii ((name, value) ∷ rest) = (unicode_to_utf16 name ≡ ok name) × AllAscii rest

keyword_map-AllAscii : AllAscii keyword_map
unfolding unicode_to_utf16
keyword_map-AllAscii = (
  refl,
  (
    refl,
    (
      refl,
      (
        refl,
        (
          refl,
          (
            refl,
            (
              refl,
              (
                refl,
                (
                  refl,
                  (
                    refl,
                    (
                      refl,
                      (
                        refl,
                        (
                          refl,
                          (
                            refl,
                            (
                              refl,
                              (
                                refl,
                                (
                                  refl,
                                  (
                                    refl,
                                    (
                                      refl,
                                      (
                                        refl,
                                        (
                                          refl,
                                          (
                                            refl,
                                            (
                                              refl,
                                              (
                                                refl,
                                                (
                                                  refl,
                                                  (
                                                    refl,
                                                    (
                                                      refl,
                                                      (
                                                        refl,
                                                        (
                                                          refl,
                                                          (
                                                            refl,
                                                            (
                                                            refl,
                                                            (
                                                            refl,
                                                            (
                                                            refl,
                                                            (
                                                            refl,
                                                            (
                                                            refl,
                                                            (
                                                            refl,
                                                            (
                                                            refl,
                                                            (
                                                            refl,
                                                            (
                                                            refl,
                                                            (
                                                            refl,
                                                            (
                                                            refl,
                                                            (refl, (refl, (refl, (refl, tt)))),
                                                            ),
                                                            ),
                                                            ),
                                                            ),
                                                            ),
                                                            ),
                                                            ),
                                                            ),
                                                            ),
                                                            ),
                                                            ),
                                                          ),
                                                        ),
                                                      ),
                                                    ),
                                                  ),
                                                ),
                                              ),
                                            ),
                                          ),
                                        ),
                                      ),
                                    ),
                                  ),
                                ),
                              ),
                            ),
                          ),
                        ),
                      ),
                    ),
                  ),
                ),
              ),
            ),
          ),
        ),
      ),
    ),
  ),
)

abbrev Filled : Entries → Hashmap (List ℕ) ℕ → Result (Hashmap (List ℕ) ℕ) → Type 0
Filled es m r =
    (m' : Hashmap (List ℕ) ℕ) × (r ≡ ok m')
    × IsValid m'
    × ((q : List ℕ) → view m' q ≡ last_value es q (view m q))

fill_keywords-view :
    (es : Entries) (m : Hashmap (List ℕ) ℕ)
    → AllAscii es
    → IsValid m
    → Filled es m (fill_keywords es m)
unfolding fill_keywords last_value
fill_keywords-view [] m ascii v = (m, refl, v, λ q. refl)
fill_keywords-view ((name, value) ∷ rest) m ascii v =
    let (m', put, v', reads) = put-view v name value in
    let (m'', fill, v'', reads') = fill_keywords-view rest m' ascii.1 v' in
    (
      m'',
      rw (ascii.0, ◌>>=◌, put, fill),
      v'',
      λ q. reads' q ∙ ap (λ o. last_value rest q o) (reads q),
    )

-- `lookupKeyword` never fails, and returns the value written beside the word in the table of
-- `initKeyword`, or 0 for a word that does not stand there.
pub lookup_keyword-last_value :
    (kwd : List ℕ) → lookup_keyword kwd ≡ ok (or_null 0 (last_value keyword_map kwd none))
unfolding lookup_keyword init_keyword hashmap_new_utf16
lookup_keyword-last_value kwd =
    let (m, fill, v, reads) =
      fill_keywords-view keyword_map (hashmap_new_utf16 97) keyword_map-AllAscii
        (new-IsValid 97 (omega arith)) in
    rw (fill, ◌>>=◌, get-view 0 kwd v, reads kwd, new-view {V = ℕ} 97 kwd)
