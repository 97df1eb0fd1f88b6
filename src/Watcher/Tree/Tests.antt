-- ===== src/Watcher/Tree/Tests.antt =====
-- `recursiveWatch` on a small tree.
use renzoku.Prelude.{not, true, ◌≤◌, refl, some, List, [], ◌∷◌, arith}
use renzoku.World.Example.{small_os}
use renzoku.World.{Os}
use renzoku.Watcher.{sub_path, is_dot}
use renzoku.Watcher.Created.{Created}
use renzoku.Watcher.Tree.{Forest, leaf, file, branch, entries, Told, height, Below, IsTree}
use renzoku.Text.{Text, text_eq, bytes}
use renzoku.Prelude.{true, if◌then◌else◌}

-- The directory `r` has the entries `.`, `a` and the file `m`, and all other directories are
-- empty.
abbrev listing : Text → List Text
listing dir = if text_eq dir (b'r' ∷ []) then (b'.' ∷ []) ∷ (b'a' ∷ []) ∷ (b'm' ∷ []) ∷ [] else []

abbrev pub tree_os : Os
tree_os = record small_os {
  opendir = λ s path. some (listing path);
  lstat = λ s path. some (not (text_eq path (b'm' ∷ [])));
  getcwd = λ s. some (b'r' ∷ []);
}

abbrev pub tree : Forest
tree = branch (b'.' ∷ []) leaf (branch (b'a' ∷ []) leaf (file (b'm' ∷ []) leaf))

pub tree-IsTree : IsTree tree_os (b'r' ∷ []) tree
unfolding Below Told entries is_dot sub_path text_eq bytes
tree-IsTree = (
  record { stat = λ s. refl; opens = λ s. refl; told = λ s. (refl, (refl, (refl, tt))) },
  (
    (λ e. absurd (cc)),
    ((λ e. (record { stat = λ s. refl; opens = λ s. refl; told = λ s. tt }, tt)), tt),
  ),
)

pub tree-height : height tree ≤ 2
unfolding height
tree-height = omega arith
