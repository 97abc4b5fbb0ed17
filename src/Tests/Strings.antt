-- ===== src/Tests/Strings.antt =====
-- libs/unicode and libs/clib-independent/string.c.
use saki_os.Base.{
  ℕ, ◌+◌, ◌-◌, ◌≡◌, ◌≢◌, refl, inl, List, [], ◌∷◌, if◌then◌else◌, ltb, ok, some, is_zero, is_neg,
  arith, ◌||◌,
}
use saki_os.CString.Blocks.{in_block, memmove_lem, memmove_overlap}
use saki_os.CString.{memmove, strlen}
use saki_os.Unicode.Convert.RoundTrip.{IsUtf16, nil, unit, pair, AreBytes, to_utf16-to_utf8}
use saki_os.Unicode.Hash.Order.{same_units, lex_before, utf16_cmp-signs}
use saki_os.Unicode.Hash.{unicode_utf16_cmp}
use saki_os.Unicode.Convert.{unicode_to_utf16, unicode_to_utf8}

-- "a", the euro sign and U+1F600
abbrev text : List ℕ
text = 0x61 ∷ 0x20AC ∷ 0xD83D ∷ 0xDE00 ∷ []

text-IsUtf16 : IsUtf16 text
text-IsUtf16 = unit (omega arith) (inl (omega arith)) (
    unit (omega arith) (inl (omega arith))
      (pair (omega arith) (omega arith) (omega arith) (omega arith) nil))

to_utf16-to_utf8_example :
    (u : List ℕ) × (unicode_to_utf8 text ≡ ok u) × (unicode_to_utf16 u ≡ ok text) × AreBytes u
to_utf16-to_utf8_example = to_utf16-to_utf8 text-IsUtf16

text_bytes : unicode_to_utf8 text ≡ ok (0x61 ∷ 0xE2 ∷ 0x82 ∷ 0xAC ∷ 0xF0 ∷ 0x9F ∷ 0x98 ∷ 0x80 ∷ [])
unfolding unicode_to_utf8
text_bytes = refl

memmove_lem_example : memmove 10 20 4 (λ a. a) 12 ≡ (
    if ltb 10 20 || ltb (20 + 4) 10
    then (if in_block 10 4 12 then 20 + (12 - 10) else 12)
    else (if in_block 11 4 12 then 20 + (12 - 10) else 12))
memmove_lem_example = memmove_lem 10 20 4 (λ a. a) 12

memmove_overlap_example : memmove 12 10 4 (λ a. a) 12 ≢ 10
memmove_overlap_example = memmove_overlap 12 10 4 (λ a. a) (omega arith) (omega arith) (omega arith)

strlen_runs : strlen 5 (λ a. if ltb a 103 then 65 else 0) 100 ≡ some 3
unfolding strlen
strlen_runs = refl

utf16_cmp-signs_example :
    (is_zero (unicode_utf16_cmp text (0x61 ∷ [])) ≡ same_units text (0x61 ∷ []))
    × (is_neg (unicode_utf16_cmp text (0x61 ∷ [])) ≡ lex_before text (0x61 ∷ []))
utf16_cmp-signs_example = utf16_cmp-signs text (0x61 ∷ [])
