-- ===== src/Util/Match/Tests.antt =====
-- Runs of `strMatch`, and its theorems at concrete strings.
use renzoku.Prelude.{◌≡◌, ◌↔◌, Bool, arith, refl, false, true, some, [], ◌∷◌}
use renzoku.Text.{Text, substr, substr_from, text_eq}
use renzoku.Util.Match.{last_asterisk, suffix_of, starts, match_ends, str_match}
use renzoku.Util.Match.Glob.{Glob, str_match_iff, str_match_total}

abbrev any_cpp : Text
any_cpp = b'*' ∷ b'.' ∷ b'c' ∷ []

abbrev a_cpp : Text
a_cpp = b'a' ∷ b'.' ∷ b'c' ∷ []

matches_suffix : str_match any_cpp a_cpp ≡ some true
unfolding str_match last_asterisk suffix_of starts match_ends substr substr_from text_eq
matches_suffix = refl

-- `a*` does not match `a`: the asterisk stands for one byte at least.
star_is_not_empty : str_match (b'a' ∷ b'*' ∷ []) (b'a' ∷ []) ≡ some false
unfolding str_match last_asterisk suffix_of starts match_ends substr substr_from text_eq
star_is_not_empty = refl

-- A filter for headers does not match m.c.
pub header_filter : str_match (b'*' ∷ b'.' ∷ b'h' ∷ []) (b'm' ∷ b'.' ∷ b'c' ∷ []) ≡ some false
unfolding str_match last_asterisk suffix_of starts match_ends substr substr_from text_eq
header_filter = refl

str_match_iff_example : (str_match any_cpp a_cpp ≡ some true) ↔ Glob any_cpp a_cpp
str_match_iff_example = str_match_iff any_cpp a_cpp (omega arith)

str_match_total_example : (b : Bool) × (str_match any_cpp a_cpp ≡ some b)
str_match_total_example = str_match_total any_cpp a_cpp (omega arith)
