-- ===== src/Util/Command/Memory.antt =====
-- The memory of the arrays that `parseCommand` of src/util.cpp allocates, and the loop that
-- deletes one.
use renzoku.Prelude.{ℕ, ◌+◌, Option, none, some, List, [], ◌∷◌, ◌++◌, map, length, get_elem?, set}
use renzoku.Text.{Text}
use renzoku.World.{Ptr}
use renzoku.Util.Command.{◌>>=◌, parse_command}

-- A block of `new[]`: the bytes of an argument, or the array of the pointers to the arguments. A
-- block that has been deleted is `none` in the memory.
pub data Block : Type 0 where
  string : Text → Block
  array : List Ptr → Block

abbrev pub Memory : Type 0
Memory = List (Option Block)

-- `new char*[args.size() + 1]`, and a `new char[…]` for each argument, one behind another.
abbrev pub addresses : ℕ → List Text → List Ptr
addresses n [] = []
addresses n (t ∷ ts) = n ∷ addresses (n + 1) ts

unfoldable pub new_array : List Text → Memory → Ptr × Memory
new_array command m = (
  length m,
  m ++ (some (array (addresses (length m + 1) command)) ∷ map (λ t. some (string t)) command),
)

-- `parseCommand` with its array.
unfoldable pub parse_command_array : Text → Memory → Option (Ptr × Memory)
parse_command_array command m = do words ← parse_command command; some (new_array words m)

-- `delete[]` of a block; `none` where it is not there, which is undefined.
unfoldable pub delete_block : Ptr → Memory → Option Memory
delete_block p m = elim (get_elem? m p) [
  | none ↦ none
  | some none ↦ none
  | some (some b) ↦ some (set m p none)
]

-- `delete[]` of each.
unfoldable pub delete_strings : List Ptr → Memory → Option Memory
delete_strings [] m = some m
delete_strings (p ∷ ps) m = do next ← delete_block p m; delete_strings ps next

-- `for(i = 0; command[i]; i++) delete [] command[i]; delete [] command;`, where the array is read
-- before its strings are deleted.
unfoldable pub delete_array : Ptr → Memory → Option Memory
delete_array p m = elim (get_elem? m p) [
  | none ↦ none
  | some none ↦ none
  | some (some (string t)) ↦ none
  | some (some (array strings)) ↦ (delete_strings strings m >>= delete_block p)
]
