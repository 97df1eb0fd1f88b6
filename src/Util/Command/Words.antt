-- ===== src/Util/Command/Words.antt =====
-- The arguments of a command, described without indices, for `parseCommand` of src/util.cpp.
use renzoku.Prelude.{Bool, true, false, not, ◌&&◌, List, [], ◌∷◌, ◌++◌, ◌==◌, if◌then◌else◌, ℕ}
use renzoku.Text.{Text}
use renzoku.Util.Command.{quote_mark, space}

-- The flag behind a byte, and whether the byte ends an argument.
abbrev pub quoting : Bool → ℕ → Bool
quoting q c = if c == quote_mark then not q else q

abbrev pub separates : Bool → ℕ → Bool
separates q c = c == space && not q

-- The arguments of the bytes that are left, behind the bytes `cur` of the present one. The byte
-- behind a separator belongs to the next argument, whatever it is.
unfoldable pub words : Bool → Text → Text → List Text
words q cur [] = cur ∷ []
words q cur (c ∷ []) = if separates q c then cur ∷ [] ∷ [] else (cur ++ c ∷ []) ∷ []
words q cur (c ∷ d ∷ rest) = elim (separates q c) [
  | true ↦ cur ∷ words q (d ∷ []) rest
  | false ↦ words (quoting q c) (cur ++ c ∷ []) (d ∷ rest)
]

unfoldable pub split_words : Text → List Text
split_words [] = []
split_words (c ∷ command) = words false [] (c ∷ command)

-- The arguments with one space between each two.
unfoldable pub join : List Text → Text
join [] = []
join (w ∷ []) = w
join (w ∷ v ∷ ws) = w ++ (space ∷ join (v ∷ ws))
