-- ===== src/UnitTests/Config/Document.antt =====
-- The document of tests/test_config.cpp as yaml-cpp gives it.
use renzoku.Prelude.{
  ℕ, zero, suc, ◌≡◌, ◌<◌, refl, Bool, true, false, Option, none, some, List, [], ◌∷◌, length,
  get_elem?, arith, ltb, ◌&&◌, if◌then◌else◌,
}
use renzoku.Text.{Text, text_eq, bytes, npos}
use renzoku.Yaml.{Yaml, NodeType, null, scalar, sequence, map}
use renzoku.Config.Commands.{IsBounded}

-- A node, with the places of the nodes that it holds.
pub record Item : Type 0 where
  pub kind : NodeType
  pub text : Option Text
  pub flag : Option Bool
  pub pairs : List (ℕ × ℕ)
  pub items : List ℕ

abbrev word : Text → Item
word t = record { kind = scalar; text = some t; flag = none; pairs = []; items = [] }

abbrev switched : Text → Bool → Item
switched t on = record (word t) { flag = some on }

abbrev mapping : List (ℕ × ℕ) → Item
mapping pairs = record { kind = map; text = none; flag = none; pairs = pairs; items = [] }

abbrev listing : List ℕ → Item
listing items = record { kind = sequence; text = none; flag = none; pairs = []; items = items }

abbrev pub table : List Item
table =
    mapping ((1, 2) ∷ (14, 15) ∷ (20, 21) ∷ (30, 31) ∷ [])
    ∷ word (bytes "watch")
    ∷ mapping ((3, 4) ∷ (10, 11) ∷ (12, 13) ∷ [])
    ∷ word (bytes "Filter")
    ∷ listing (5 ∷ 6 ∷ 7 ∷ 8 ∷ 9 ∷ [])
    ∷ word (bytes "*.cpp")
    ∷ word (bytes "*.hpp")
    ∷ word (bytes "*.c")
    ∷ word (bytes "*.h")
    ∷ word (bytes "include/*.hxx")
    ∷ word (bytes "Include")
    ∷ word (bytes "Makefile")
    ∷ word (bytes "Exclude")
    ∷ word (bytes "src/Config.cpp")
    ∷ word (bytes "compile")
    ∷ mapping ((16, 17) ∷ (18, 19) ∷ [])
    ∷ word (bytes "Command")
    ∷ word (bytes "make")
    ∷ word (bytes "Enabled")
    ∷ switched (bytes "yes") true
    ∷ word (bytes "Test")
    ∷ mapping ((22, 23) ∷ (24, 25) ∷ (18, 29) ∷ [])
    ∷ word (bytes "command")
    ∷ word (bytes "make test")
    ∷ word (bytes "IgnoreStatus")
    ∷ listing (26 ∷ 27 ∷ 28 ∷ [])
    ∷ word (bytes "2")
    ∷ word (bytes "3")
    ∷ word (bytes "4")
    ∷ switched (bytes "no") false
    ∷ word (bytes "program")
    ∷ mapping ((22, 32) ∷ (18, 19) ∷ [])
    ∷ word (bytes "./bin/program --help")
    ∷ []

-- A place behind the table holds an undefined node.
abbrev pub node_at : List Item → ℕ → Item
node_at items n = elim (get_elem? items n) [
  | none ↦ record { kind = null; text = none; flag = none; pairs = []; items = [] }
  | some item ↦ item
]

abbrev length_of : Item → ℕ
length_of item = elim item.kind [
  | null ↦ 0
  | scalar ↦ 1
  | sequence ↦ length item.items
  | map ↦ length item.pairs
]

-- `watch` and `program` are the keys that are looked up.
abbrev pub test_yaml : Yaml
test_yaml = record {
  Node = ℕ;
  load = λ s. some 0;
  is_defined = λ n. true;
  kind = λ n. (node_at table n).kind;
  size = λ n. length_of (node_at table n);
  lookup = λ n key. if text_eq key (bytes "watch") then 2 else 31;
  entries = λ n. (node_at table n).pairs;
  items = λ n. (node_at table n).items;
  as_string = λ n. (node_at table n).text;
  as_bool = λ n. (node_at table n).flag;
}

abbrev IsShort : Option Text → Type 0
IsShort o = (t : Text) → o ≡ some t → length t < npos

abbrev is_short : Option Text → Bool
is_short none = true
is_short (some t) = ltb (length t) npos

abbrev all_short : List Item → Bool
all_short [] = true
all_short (item ∷ items) = is_short item.text && all_short items

is_short-IsShort : (o : Option Text) → is_short o ≡ true → IsShort o
is_short-IsShort none h t e = absurd (cc)
is_short-IsShort (some s) h t e = let same : s ≡ t = cc in rw (← same) (ground arith)

node_at-IsShort :
    (items : List Item) → all_short items ≡ true → (n : ℕ) → IsShort (node_at items n).text
node_at-IsShort [] h n t e = absurd (cc)
node_at-IsShort (item ∷ items) h zero t e = is_short-IsShort item.text (ground arith) t e
node_at-IsShort (item ∷ items) h (suc n) t e = node_at-IsShort items (ground arith) n t e

pub test_yaml-IsBounded : IsBounded test_yaml
unfolding bytes
test_yaml-IsBounded = node_at-IsShort table refl
