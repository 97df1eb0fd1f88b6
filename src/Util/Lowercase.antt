-- ===== src/Util/Lowercase.antt =====
-- src/util.cpp: `lowercase` and `lowercase_r`.
use renzoku.Prelude.{ℕ, ◌+◌, ◌&&◌, map, leb, if◌then◌else◌}
use renzoku.Text.{Text}

-- `::tolower` in the "C" locale, which the program never leaves.
unfoldable pub tolower : ℕ → ℕ
tolower c = if leb b'A' c && leb c b'Z' then c + 32 else c

-- `lowercase` writes the transformed bytes over its argument: the argument's new value.
unfoldable pub lowercase : Text → Text
lowercase input = map tolower input

-- `lowercase_r` transforms a copy and returns it.
unfoldable pub lowercase_r : Text → Text
lowercase_r input = let copy = input in map tolower copy
