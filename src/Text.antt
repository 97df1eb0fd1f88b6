-- ===== src/Text.antt =====
-- `std::string` as the list of its bytes, and `size_t` arithmetic: the parts of the standard
-- library that src/util.cpp and src/config.cpp use.
pub mod Laws
use Prim.Native.Char.{code}
use Prim.Native.String.{String}
use renzoku.Prelude.{
  ℕ, ◌+◌, ◌-◌, ◌%◌, ◌^◌, Bool, true, false, ◌&&◌, Option, none, some, List, [], ◌∷◌, leb, ◌==◌,
  if◌then◌else◌, length, take, drop,
}

abbrev pub Text : Type 0
Text = List ℕ

-- Arithmetic of a 64-bit `size_t`, and `std::string::npos`, which is `(size_t)-1`.
abbrev pub size_mod : ℕ
size_mod = 2 ^ 64

abbrev pub npos : ℕ
npos = 2 ^ 64 - 1

abbrev pub add_size : ℕ → ℕ → ℕ
add_size a b = (a + b) % size_mod

abbrev pub sub_size : ℕ → ℕ → ℕ
sub_size a b = (a + size_mod - b) % size_mod

-- `s.substr(pos, n)`. It throws `std::out_of_range` where `pos` lies behind the end.
unfoldable pub substr : Text → ℕ → ℕ → Option Text
substr s pos n = if leb pos (length s) then some (take n (drop pos s)) else none

-- `s.substr(pos)`
unfoldable pub substr_from : Text → ℕ → Option Text
substr_from s pos = if leb pos (length s) then some (drop pos s) else none

-- `==` of two strings
unfoldable pub text_eq : Text → Text → Bool
text_eq [] [] = true
text_eq [] (d ∷ t) = false
text_eq (c ∷ s) [] = false
text_eq (c ∷ s) (d ∷ t) = c == d && text_eq s t

abbrev pub null_byte : ℕ
null_byte = 0

-- A string read through `c_str()`, as `strcpy` and `%s` do: up to the first NUL.
unfoldable pub c_str : Text → Text
c_str [] = []
c_str (c ∷ s) = if c == null_byte then [] else c ∷ c_str s

-- A string literal of the source, which is ASCII.
unfoldable pub bytes : String → Text
bytes String.[] = []
bytes (String.◌∷◌ c s) = code c ∷ bytes s
