-- ===== src/Process/Memory.antt =====
-- The array of the command of a Process, from its constructors to its destructor, in
-- src/process.cpp.
use renzoku.Prelude.{
  ℕ, suc, ◌+◌, ◌≡◌, refl, sym, ◌∙◌, ap, arith, Bool, true, false, Option, none, some, List, [], ◌∷◌,
  ◌++◌, map, replicate, length, length-append, append_assoc, get_elem?, set, if◌then◌else◌,
}
use renzoku.Text.{Text}
use renzoku.World.{Ptr}
use renzoku.Util.Command.{◌>>=◌, parse_command}
use renzoku.Util.Command.Memory.{
  Block, string, array, Memory, addresses, new_array, parse_command_array, delete_block,
  delete_strings, delete_array,
}

-- `mCommand`, and whether the object has made it.
pub record CommandArray : Type 0 where
  pub generated_command : Bool
  pub command : Ptr

-- The constructor from a string.
unfoldable pub array_from_string : Text → Memory → Option (CommandArray × Memory)
array_from_string command m = do
  (p, next) ← parse_command_array command m
  some (record { generated_command = true; command = p }, next)

-- The constructor from an array.
pub array_from_array : Ptr → Memory → CommandArray × Memory
array_from_array command m = (record { generated_command = false; command = command }, m)

-- The destructor behind `kill`.
unfoldable pub delete_generated : CommandArray → Memory → Option Memory
delete_generated c m = if c.generated_command then delete_array c.command m else some m

get_elem?-middle :
    (m : Memory) (b : Option Block) (more : Memory) → get_elem? (m ++ b ∷ more) (length m) ≡ some b
get_elem?-middle [] b more = refl
get_elem?-middle (x ∷ m) b more = get_elem?-middle m b more

set-middle :
    (m : Memory) (b c : Option Block) (more : Memory)
    → set (m ++ b ∷ more) (length m) c ≡ m ++ c ∷ more
set-middle [] b c more = refl
set-middle (x ∷ m) b c more = ap (λ rest. x ∷ rest) (set-middle m b c more)

delete_block-middle :
    (m : Memory) (b : Block) (more : Memory)
    → delete_block (length m) (m ++ some b ∷ more) ≡ some (m ++ none ∷ more)
unfolding delete_block
delete_block-middle m b more =
    rw (delete_block, get_elem?-middle m (some b) more) (ap some (set-middle m (some b) none more))

abbrev string_blocks : List Text → Memory
string_blocks ts = map (λ t. some (string t)) ts

-- The strings behind an array, deleted one behind another.
delete_strings-behind :
    (n : ℕ) (m : Memory) (b : Option Block) (ts : List Text)
    → n ≡ length m
    → delete_strings (addresses (n + 1) ts) (m ++ b ∷ string_blocks ts)
      ≡ some (m ++ b ∷ replicate (length ts) none)
unfolding delete_strings
delete_strings-behind n m b [] e = refl
delete_strings-behind n m b (t ∷ ts) e =
    ap (λ whole. delete_block (n + 1) whole >>= delete_strings (addresses (n + 1 + 1) ts))
      (sym (append_assoc m (b ∷ []) (some (string t) ∷ string_blocks ts)))
    ∙ ap (λ o. o >>= delete_strings (addresses (n + 1 + 1) ts))
        (ap (λ k. delete_block k (before ++ some (string t) ∷ string_blocks ts)) next
          ∙ delete_block-middle before (string t) (string_blocks ts))
    ∙ delete_strings-behind (n + 1) before none ts next
    ∙ ap some (append_assoc m (b ∷ []) (none ∷ replicate (length ts) none))
  where
    before : Memory
    before = m ++ (b ∷ [])

    next : n + 1 ≡ length before
    next = omega (arith, e, length-append m (b ∷ []))

delete_array-new :
    (words : List Text) (m : Memory)
    → delete_array (new_array words m).0 (new_array words m).1
      ≡ some (m ++ replicate (suc (length words)) none)
unfolding delete_array new_array
delete_array-new words m =
    let block = array (addresses (length m + 1) words) in
    rw (delete_array, get_elem?-middle m (some block) (string_blocks words))
      (ap (λ o. o >>= delete_block (length m))
          (delete_strings-behind (length m) m (some block) words refl)
        ∙ delete_block-middle m block (replicate (length words) none))

-- A process that is made from a string, and then deleted, leaves the memory as it was, but for
-- addresses that are gone; the exception of `parseCommand` comes first.
pub array_from_string-delete_generated :
    (command : Text) (m : Memory)
    → (array_from_string command m >>= λ (c, next). delete_generated c next)
      ≡ (parse_command command >>= λ words. some (m ++ replicate (suc (length words)) none))
unfolding array_from_string delete_generated parse_command_array
array_from_string-delete_generated command m = parsed (parse_command command)
  where
    parsed :
        (o : Option (List Text))
        → ((do
          (p, next) ← (do words ← o; some (new_array words m))
          some (record { generated_command = true; command = p }, next))
            >>= λ (c, next). delete_generated c next)
          ≡ (o >>= λ words. some (m ++ replicate (suc (length words)) none))
    parsed none = refl
    parsed (some words) = delete_array-new words m
