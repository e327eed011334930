-- ===== src/Text/Words.antt =====
-- Cutting a text into its lines, and into its words.
use zeptocapsule.Common.{ℕ, List, [], ◌∷◌, ◌++◌, true, false, ◌==◌, ◌&&◌, if◌then◌else◌}
use zeptocapsule.Text.{Str, codes, starts_with, is_whitespace}

-- the first line with one character more
abbrev grown : ℕ → List Str → List Str
grown c [] = (c ∷ []) ∷ []
grown c (line ∷ rest) = (c ∷ line) ∷ rest

-- `s.lines()`: a line ends in "\n" or "\r\n", and an empty text behind the last is no line.
unfoldable pub lines : Str → List Str
unfolding starts_with
lines [] = []
lines (c ∷ s) =
    let rest = lines s in
    if c == 10
    then [] ∷ rest
    else if c == 13 && starts_with s (codes "\n")
    then rest
    else grown c rest

-- `s.trim_start()`, and the word at the start of a text with what follows it
unfoldable pub skip_space : Str → Str
unfolding is_whitespace
skip_space [] = []
skip_space (c ∷ s) = if is_whitespace c then skip_space s else c ∷ s

unfoldable pub word : Str → Str × Str
unfolding is_whitespace
word [] = ([], [])
word (c ∷ s) = let (w, rest) = word s in if is_whitespace c then ([], c ∷ s) else (c ∷ w, rest)

-- a word put before the words of the rest; an empty one is none
abbrev cons_word : Str → List Str → List Str
cons_word [] words = words
cons_word (c ∷ w) words = (c ∷ w) ∷ words

-- the words of a text whose current word is `w`
words_from : Str → Str → List Str
unfolding is_whitespace
words_from w [] = cons_word w []
words_from w (c ∷ s) = elim (is_whitespace c) [
  | true ↦ cons_word w (words_from [] s)
  | false ↦ words_from (w ++ c ∷ []) s
]

-- `s.split_whitespace()`
unfoldable pub split_whitespace : Str → List Str
unfolding words_from
split_whitespace s = words_from [] s
