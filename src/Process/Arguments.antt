-- ===== src/Process/Arguments.antt =====
-- The text of its arguments that the child makes for its log, in `run` of src/process.cpp.
use renzoku.Prelude.{ℕ, ◌+◌, Option, none, some, List, [], ◌∷◌, ◌++◌, leb, if◌then◌else◌, length}
use renzoku.Text.{Text, bytes}
use renzoku.Util.Command.{◌>>=◌}

-- The loop that adds up the lengths of the arguments, a separator with each.
unfoldable pub args_size : List Text → ℕ
args_size [] = 0
args_size (a ∷ rest) = length a + 1 + args_size rest

-- `strcat` into a buffer of `capacity` bytes: `none` where the text and its NUL do not fit, which
-- is undefined.
unfoldable pub strcat : ℕ → Text → Text → Option Text
strcat capacity buffer t =
    if leb (length (buffer ++ t) + 1) capacity then some (buffer ++ t) else none

-- The loop of `strcat`.
unfoldable pub append_args : ℕ → Text → List Text → Option Text
append_args capacity buffer [] = some buffer
append_args capacity buffer (a ∷ rest) = do
  first ← strcat capacity buffer a
  second ← strcat capacity first (bytes " ")
  append_args capacity second rest

-- `new char[size + 1]`, made empty by a NUL at its start, and the loop over the arguments.
unfoldable pub args_string : List Text → Option Text
args_string args =
    let capacity = args_size args + 1 in
    if leb 1 capacity then append_args capacity [] args else none
