-- ===== src/Base/Words.antt =====
-- What the program uses of the packages unicode and strings for words.
use Prim.Native.Nat.{ℕ}
use mathlib.Core.Path.{◌≡◌, refl}
use mathlib.Core.Bool.{Bool, true, false, ◌&&◌, ◌||◌}
use mathlib.Core.List.{List, [], ◌∷◌, ◌++◌}
use mattermost_plugin_messag.Base.Tests.{leb, ◌==◌}
use mattermost_plugin_messag.Base.Strings.{Text, text}

-- unicode.IsSpace
unfoldable pub is_space : ℕ → Bool
is_space c =
    (leb 9 c && leb c 13)
    || (c == 32
        || (c == 0x85
            || (c == 0xa0
                || (c == 0x1680
                    || ((leb 0x2000 c && leb c 0x200a)
                        || (c == 0x2028
                            || (c == 0x2029 || (c == 0x202f || (c == 0x205f || c == 0x3000)))))))))

abbrev pub is_nil : Text → Bool
is_nil [] = true
is_nil (c ∷ s) = false

-- puts a word that is complete in front of the others
abbrev pub flush : Text → List Text → List Text
flush [] words = words
flush (c ∷ word) words = (c ∷ word) ∷ words

-- the words of a text, of which the first begins with `word`
unfoldable pub fields_after : Text → Text → List Text
fields_after word [] = flush word []
fields_after word (c ∷ s) = elim (is_space c) [
  | true ↦ flush word (fields_after [] s)
  | false ↦ fields_after (word ++ c ∷ []) s
]

-- strings.Fields(s)
unfoldable pub fields : Text → List Text
unfolding fields_after
fields = fields_after []

fields_two : fields (text " /disappear  set 1h") ≡ text "/disappear" ∷ text "set" ∷ text "1h" ∷ []
unfolding fields text is_space
fields_two = refl
