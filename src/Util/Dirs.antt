-- ===== src/Util/Dirs.antt =====
-- src/util.cpp: `cwd` and `listDir`, and the exception of src/exceptions.cpp that they throw.
pub mod Laws
use renzoku.Prelude.{
  Bool, true, false, not, ◌&&◌, Option, none, some, List, [], ◌∷◌, ◌++◌, if◌then◌else◌,
}
use renzoku.Text.{Text, bytes}
use renzoku.World.{Os, M, ◌>>=◌, pure, throw, fault}
use renzoku.Log.Printf.{to_base}

-- enum FileType
pub data FileType : Type 0 where
  all directory filetype : FileType

-- Whether an entry of the given mode is of the type that is asked for.
unfoldable pub wanted : FileType → Bool → Bool
wanted directory is_dir = is_dir
wanted filetype is_dir = not is_dir
wanted all is_dir = true

-- `lstat(name, &st)`: where it fails, `st` keeps what the call before it wrote.
unfoldable pub stat_mode : Option Bool → Bool → Bool
stat_mode none is_dir = is_dir
stat_mode (some mode) is_dir = mode

-- The loop over `readdir`, with the mode in `st`. The name is looked up as it is, so from the
-- working directory, and not from the directory that is listed.
unfoldable pub list_entries : (Text → Option Bool) → FileType → Bool → List Text → List Text
unfolding wanted stat_mode
list_entries lstat ft is_dir [] = []
list_entries lstat ft is_dir (name ∷ names) =
    let mode = stat_mode (lstat name) is_dir in
    let rest = list_entries lstat ft mode names in if wanted ft mode then name ∷ rest else rest

module _ (os : Os) where
  -- The message of a CException.
  pub throw_c : {A : Type 0} → Text → M os A
  throw_c message w =
      let errno = os.errno w.system in
      throw
        (message
          ++ (bytes ": " ++ (os.strerror errno ++ (bytes " (" ++ (to_base 10 errno ++ bytes ")")))))
        w

  pub cwd : M os Text
  cwd w = elim (os.getcwd w.system) [ none ↦ throw_c (bytes "getcwd") w | some path ↦ pure path w ]

  -- Where the first `lstat` fails, the test reads a structure that nothing has written.
  pub list_dir : Text → FileType → M os (List Text)
  list_dir path ft w = elim (os.lstat w.system path) [
    | none ↦ fault w
    | some false ↦ pure [] w
    | some true ↦ elim (os.opendir w.system path) [
      | none ↦ throw_c (bytes "opendir") w
      | some names ↦ pure (list_entries (os.lstat w.system) ft true names) w
    ]
  ]
