-- ===== src/Config/Memory.antt =====
-- The commands of a Config as pointers to arrays, and the destructor of src/config.cpp.
pub mod Blocks
pub mod Last
pub mod Addresses
pub mod Owned
pub mod Destroyed
pub mod Gives
pub mod Assignments
pub mod Document
use renzoku.Prelude.{Option, none, some, List, [], ◌∷◌}
use renzoku.Text.{Text}
use renzoku.World.{Ptr}
use renzoku.Util.Command.{◌>>=◌}
use renzoku.Util.Command.Memory.{Memory, new_array, delete_array}

-- The members of a Config that have a command.
pub data Member : Type 0 where
  compile test program : Member

abbrev pub same : Member → Member → Option (Unit {0})
same compile compile = some tt
same test test = some tt
same program program = some tt
same _ _ = none

-- Their pointers, which are NULL at first.
abbrev pub Commands : Type 0
Commands = Member → Option Ptr

abbrev pub no_commands : Commands
no_commands s = none

-- `u` for the member that is meant, and else `t`.
abbrev pub put : {A : Type 0} → Option (Unit {0}) → A → A → A
put o t u = elim o [ none ↦ t | some v ↦ u ]

-- `config.command = Util::parseCommand(…)`: the pointer of before is not deleted.
unfoldable pub assign : Member → List Text → Commands × Memory → Commands × Memory
assign s command (c, m) =
    let (p, next) = new_array command m in ((λ t. put (same s t) (c t) (some p)), next)

unfoldable pub assign_all : List (Member × List Text) → Commands × Memory → Commands × Memory
assign_all [] state = state
assign_all ((s, command) ∷ rest) state = assign_all rest (assign s command state)

-- The part of the destructor for one member.
unfoldable pub delete_command : Option Ptr → Memory → Option Memory
delete_command none m = some m
delete_command (some p) m = delete_array p m

-- The destructor.
unfoldable pub destroy : Commands → Memory → Option Memory
destroy c m = do
  first ← delete_command (c compile) m
  second ← delete_command (c test) first
  delete_command (c program) second
