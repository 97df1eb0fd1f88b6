-- ===== src/Util/Command.antt =====
-- src/util.cpp: `parseCommand`, the scan with its indices and flags. A `char**` is the list of
-- the strings in front of its NULL.
pub mod Words
pub mod Memory
mod Steps
pub mod Refine
pub mod Join
pub mod Quotes
mod Tests
use renzoku.Prelude.{
  ℕ, zero, suc, ◌+◌, Bool, true, false, not, Option, none, some, List, [], ◌∷◌, ◌++◌, map, leb, ltb,
  ◌==◌, if◌then◌else◌, length, get_elem?,
}
use renzoku.Text.{Text, add_size, substr, substr_from, c_str}

abbrev pub quote_mark : ℕ
quote_mark = b'"'

abbrev pub space : ℕ
space = b' '

-- The local variables of the loop.
pub record Scan : Type 0 where
  pub position : ℕ
  pub tmppos : ℕ
  pub in_quote : Bool
  pub args : List Text

abbrev pub start : Scan
start = record { position = 0; tmppos = 0; in_quote = false; args = [] }

-- A round of the loop goes on, or ends it by `break`.
pub data Round : Type 0 where
  again : Scan → Round
  finished : List Text → Round

-- An exception of `substr`, or an index out of the string (`none`), ends the function.
infixl 5 ◌>>=◌
abbrev pub ◌>>=◌ : {A B : Type 0} → Option A → (A → Option B) → Option B
none >>= f = none
some a >>= f = f a

-- The argument that ends at an unquoted space.
pub cut : Text → Scan → Option Scan
cut command s = do
  item ← substr command s.position s.tmppos
  some (record s {
    position = add_size s.position (add_size s.tmppos 1);
    tmppos = 0;
    args = s.args ++ (item ∷ []);
  })

-- The `switch` on the byte under the cursor.
pub switch : Text → ℕ → Scan → Option Scan
switch command c s =
    if c == quote_mark
    then some (record s { in_quote = not s.in_quote })
    else if c == space
    then (if s.in_quote then some s else cut command s)
    else some s

-- `tmppos++`, and the test for the end of the command.
pub advance : Text → Scan → Option Round
advance command s =
    let next = record s { tmppos = add_size s.tmppos 1 } in
    if leb (length command) (add_size next.position next.tmppos)
    then (do item ← substr_from command next.position; some (finished (next.args ++ (item ∷ []))))
    else some (again next)

-- One round of `while(position < command.length())`.
pub round : Text → Scan → Option Round
round command s =
    if ltb s.position (length command)
    then (do
      c ← get_elem? command (add_size s.position s.tmppos)
      t ← switch command c s
      advance command t)
    else some (finished s.args)

-- The loop, on fuel; `none` also stands for fuel that has run out.
pub scan : ℕ → Text → Scan → Option (List Text)
scan zero command s = none
scan (suc fuel) command s = elim (round command s) [
  | none ↦ none
  | some (again t) ↦ scan fuel command t
  | some (finished args) ↦ some args
]

pub arguments : Text → Option (List Text)
arguments command = scan (length command + 1) command start

-- The copies that the caller gets, each read as a C string.
pub parse_command : Text → Option (List Text)
parse_command command = do args ← arguments command; some (map c_str args)
