-- ===== src/Process/Buffer.antt =====
-- The buffer that the child fills with its arguments, in `run` of src/process.cpp.
use renzoku.Prelude.{
  ◌+◌, ◌≤◌, ℕ, ◌≡◌, refl, leb, true, some, List, [], ◌∷◌, ◌++◌, arith, length, length-append,
  append_assoc, append-nil,
}
use renzoku.Text.{Text, bytes}
use renzoku.Process.Arguments.{args_size, strcat, append_args, args_string}

-- The arguments, with a space behind each.
unfoldable pub spaced : List Text → Text
spaced [] = []
spaced (a ∷ rest) = a ++ (b' ' ∷ spaced rest)

strcat-fits :
    (capacity : ℕ) (buffer t : Text)
    → length (buffer ++ t) + 1 ≤ capacity
    → strcat capacity buffer t ≡ some (buffer ++ t)
unfolding strcat
strcat-fits capacity buffer t fits = ground arith

append_args-fits :
    (capacity : ℕ) (buffer : Text) (args : List Text)
    → length buffer + args_size args + 1 ≤ capacity
    → append_args capacity buffer args ≡ some (buffer ++ spaced args)
unfolding append_args args_size bytes spaced
append_args-fits capacity buffer [] fits = rw (append-nil buffer) refl
append_args-fits capacity buffer (a ∷ rest) fits =
    let one = length-append buffer a in
    let two = length-append (buffer ++ a) (b' ' ∷ []) in
    rw
      (
        strcat-fits capacity buffer a (omega (arith, fits, one)),
        strcat-fits capacity (buffer ++ a) (b' ' ∷ []) (omega (arith, fits, one, two)),
        append_args-fits capacity ((buffer ++ a) ++ (b' ' ∷ [])) rest
            (omega (arith, fits, one, two)),
      )
      (simp append_assoc)

room : (n : ℕ) → leb 1 (n + 1) ≡ true
room n = ground arith

-- The buffer that the first loop has counted is large enough for the loop of `strcat`: no byte of
-- the arguments, of the space behind each, or of a NUL is written outside of it, and it holds the
-- arguments with a space behind each.
pub args_string-fits : (args : List Text) → args_string args ≡ some (spaced args)
unfolding args_string
args_string-fits args =
    rw (room (args_size args)) (append_args-fits (args_size args + 1) [] args (omega arith))
