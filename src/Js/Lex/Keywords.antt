-- ===== src/Js/Lex/Keywords.antt =====
-- `initKeyword` and `lookupKeyword` of libs/js/lex.c. The table is built at the first lookup and
-- kept; here each lookup builds it, which gives the same table.
pub mod Table
use Prim.Native.Char.{code}
use Prim.Native.String.{String}
use saki_os.Base.{ℕ, ◌+◌, List, [], ◌∷◌, Result, ok, ◌>>=◌}
use saki_os.DataStruct.Hashmap.{Hashmap, hashmap_put, hashmap_get}
use saki_os.Js.TokenType.{keyword_flag, reserved_word, reserved_strict}
use saki_os.Unicode.Convert.{unicode_to_utf16}
use saki_os.Unicode.Hash.Instance.{utf16_key, hashmap_new_utf16}

-- the bytes of an ASCII text
abbrev pub codes : String → List ℕ
codes String.[] = []
codes (String.◌∷◌ c s) = code c ∷ codes s

abbrev pub Entries : Type 0
Entries = List (List ℕ × ℕ)

abbrev pub keyword_map : Entries
keyword_map =
    (codes "break", keyword_flag)
    ∷ (codes "case", keyword_flag + 1)
    ∷ (codes "catch", keyword_flag + 2)
    ∷ (codes "continue", keyword_flag + 3)
    ∷ (codes "debugger", keyword_flag + 4)
    ∷ (codes "default", keyword_flag + 5)
    ∷ (codes "delete", keyword_flag + 6)
    ∷ (codes "do", keyword_flag + 7)
    ∷ (codes "else", keyword_flag + 8)
    ∷ (codes "finally", keyword_flag + 9)
    ∷ (codes "for", keyword_flag + 10)
    ∷ (codes "function", keyword_flag + 11)
    ∷ (codes "if", keyword_flag + 12)
    ∷ (codes "in", keyword_flag + 13)
    ∷ (codes "instanceof", keyword_flag + 14)
    ∷ (codes "new", keyword_flag + 15)
    ∷ (codes "return", keyword_flag + 16)
    ∷ (codes "switch", keyword_flag + 17)
    ∷ (codes "this", keyword_flag + 18)
    ∷ (codes "throw", keyword_flag + 19)
    ∷ (codes "try", keyword_flag + 20)
    ∷ (codes "typeof", keyword_flag + 21)
    ∷ (codes "var", keyword_flag + 22)
    ∷ (codes "void", keyword_flag + 23)
    ∷ (codes "while", keyword_flag + 24)
    ∷ (codes "with", keyword_flag + 25)
    ∷ (codes "class", reserved_word)
    ∷ (codes "const", reserved_word)
    ∷ (codes "enum", reserved_word)
    ∷ (codes "export", reserved_word)
    ∷ (codes "extends", reserved_word)
    ∷ (codes "import", reserved_word)
    ∷ (codes "super", reserved_word)
    ∷ (codes "implements", reserved_strict)
    ∷ (codes "interface", reserved_strict)
    ∷ (codes "let", reserved_strict)
    ∷ (codes "package", reserved_strict)
    ∷ (codes "private", reserved_strict)
    ∷ (codes "protected", reserved_strict)
    ∷ (codes "public", reserved_strict)
    ∷ (codes "static", reserved_strict)
    ∷ (codes "yield", reserved_strict)
    ∷ (codes "null", keyword_flag + 27)
    ∷ (codes "true", keyword_flag + 28)
    ∷ (codes "false", keyword_flag + 29)
    ∷ []

-- the `for` of `initKeyword`
pub fill_keywords : Entries → Hashmap (List ℕ) ℕ → Result (Hashmap (List ℕ) ℕ)
fill_keywords [] keywords = ok keywords
fill_keywords ((name, value) ∷ rest) keywords = do
  utf16 ← unicode_to_utf16 name
  (keywords, _) ← hashmap_put keywords utf16 value
  fill_keywords rest keywords

unfoldable pub init_keyword : Result (Hashmap (List ℕ) ℕ)
unfolding fill_keywords
init_keyword = fill_keywords keyword_map (hashmap_new_utf16 97)

unfoldable pub lookup_keyword : List ℕ → Result ℕ
lookup_keyword kwd = do keywords ← init_keyword; hashmap_get 0 keywords kwd
