-- ===== src/Util/Match.antt =====
-- src/util.cpp: `strMatch`, with the `size_t` arithmetic and the exceptions of `substr`.
pub mod Laws
pub mod Glob
pub mod Tests
use renzoku.Prelude.{
  ℕ, ◌+◌, ◌≡◌, refl, Bool, true, false, ◌&&◌, ◌||◌, Option, none, some, [], ◌∷◌, leb, ltb, ◌==◌,
  if◌then◌else◌, length,
}
use renzoku.Text.{Text, npos, add_size, sub_size, substr, substr_from, text_eq}

-- An exception (`none`) ends the function.
infixl 5 ◌>>=◌
abbrev ◌>>=◌ : {A B : Type 0} → Option A → (A → Option B) → Option B
none >>= f = none
some a >>= f = f a

abbrev pub star : ℕ
star = b'*'

-- The `for` loop over the expression: `asterisk` ends as the index of the last `*`.
pub last_asterisk : Text → ℕ → ℕ → ℕ
last_asterisk [] i asterisk = asterisk
last_asterisk (c ∷ rest) i asterisk = last_asterisk rest (i + 1) (if c == star then i else asterisk)

-- What stands behind the asterisk. The test `asterisk >= 0` is on a `size_t`.
pub suffix_of : Text → ℕ → Option Text
suffix_of expression asterisk =
    if leb 0 asterisk then substr_from expression (add_size asterisk 1) else some expression

-- The comparison of the expression's part before the asterisk with the start of the string.
head_starts : Text → Text → ℕ → Option Bool
head_starts expression str asterisk = do
  head ← substr expression 0 asterisk
  beginning ← substr str 0 (length head)
  some (text_eq beginning head)

-- `starts_with`
pub starts : Text → Text → ℕ → Option Bool
unfolding head_starts
starts expression str asterisk =
    if leb 0 asterisk then head_starts expression str asterisk else some true

-- The part of the function behind its two early returns.
pub match_ends : Text → Text → Option Bool
match_ends expression str = do
  let asterisk = last_asterisk expression 0 npos
  tail ← suffix_of expression asterisk
  ending ← substr_from str (sub_size (length str) (length tail))
  let ends_with = text_eq ending tail
  starts_with ← starts expression str asterisk
  some (starts_with && ends_with)

pub str_match : Text → Text → Option Bool
str_match expression str =
    if length expression == 0 || length str == 0
    then some false
    else if ltb (length str) (length expression)
    then some false
    else match_ends expression str
