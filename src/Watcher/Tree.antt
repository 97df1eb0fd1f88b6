-- ===== src/Watcher/Tree.antt =====
-- `recursiveWatch` of src/watcher.cpp on directories that form a tree.
pub mod Tests
use Prim.Native.Nat.{max}
use renzoku.Prelude.{
  ℕ, zero, suc, ◌+◌, ◌≤◌, ◌≡◌, refl, ap, sym, ◌∙◌, Bool, true, false, Option, some, List, [], ◌∷◌,
  ◌++◌, map, arith, if◌then◌else◌, length, length-append, append_assoc, append-nil,
}
use renzoku.Text.{Text}
use renzoku.World.{Os, World, Event, M, watched, done, pure}
use renzoku.World.Does.{Returns, returns}
use renzoku.World.Emitted.{
  Emitted, Yields, Yields-map, Yields-bind, Yields-then, Yields-pure, Yields-emit, Yields-system,
}
use renzoku.Util.Dirs
use renzoku.Util.Dirs.{list_dir, list_entries, wanted, stat_mode}
use renzoku.Util.Dirs.Laws.{list_dir_lem}
use renzoku.Watcher.{Watcher, is_dot, sub_path, add_watch, watch_one, watch_each, recursive_watch}

-- The entries of one directory: files, and directories with their own entries.
pub data Forest : Type 0 where
  leaf : Forest
  file : (name : Text) → (next : Forest) → Forest
  branch : (name : Text) → (below : Forest) → (next : Forest) → Forest

-- All entries.
pub entries : Forest → List Text
entries leaf = []
entries (file name next) = name ∷ entries next
entries (branch name below next) = name ∷ entries next

-- The directories.
pub names : Forest → List Text
names leaf = []
names (file name next) = names next
names (branch name below next) = name ∷ names next

-- The number of levels, the one that is listed included.
pub height : Forest → ℕ
height leaf = 1
height (file name next) = height next
height (branch name below next) = max (suc (height below)) (height next)

-- The paths of all directories but `.` and `..`, each before those in it.
pub paths : Text → Forest → List Text
paths dir leaf = []
paths dir (file name next) = paths dir next
paths dir (branch name below next) =
    (if is_dot name then [] else sub_path dir name ∷ paths (sub_path dir name) below)
    ++ paths dir next

-- `lstat` on the bare name of each entry says whether it is a directory. The program looks up
-- this name, so from the working directory and not from the directory that it lists.
pub Told : (Text → Option Bool) → Forest → Type 0
Told lstat leaf = Unit
Told lstat (file name next) = (lstat name ≡ some false) × Told lstat next
Told lstat (branch name below next) = (lstat name ≡ some true) × Told lstat next

-- The path is a directory with these entries, in every state of the system.
pub record IsListed (os : Os) (path : Text) (f : Forest) : Type 0 where
  pub stat : (s : os.State) → os.lstat s path ≡ some true
  pub opens : (s : os.State) → os.opendir s path ≡ some (entries f)
  pub told : (s : os.State) → Told (os.lstat s) f

-- Each directory of the forest but `.` and `..` has its entries.
pub Below : Os → Text → Forest → Type 0
Below os dir leaf = Unit
Below os dir (file name next) = Below os dir next
Below os dir (branch name below next) =
    (is_dot name ≡ false
      → IsListed os (sub_path dir name) below × Below os (sub_path dir name) below)
    × Below os dir next

-- The directory holds the forest.
abbrev pub IsTree : Os → Text → Forest → Type 0
IsTree os dir f = IsListed os dir f × Below os dir f

list_entries-names :
    (lstat : Text → Option Bool) (mode : Bool) (f : Forest)
    → Told lstat f
    → list_entries lstat Dirs.directory mode (entries f) ≡ names f
unfolding Told list_entries wanted stat_mode entries names
list_entries-names lstat mode leaf h = refl
list_entries-names lstat mode (file name next) (e, h) =
    rw (e, list_entries-names lstat false next h) refl
list_entries-names lstat mode (branch name below next) (e, h) =
    rw (e, list_entries-names lstat true next h) refl

list_dir-names :
    (os : Os) (path : Text) (f : Forest)
    → IsListed os path f
    → (w : World os) → list_dir os path Dirs.directory w ≡ done (names f) w
list_dir-names os path f h w =
    list_dir_lem os path Dirs.directory (entries f) w (h.stat w.system) (h.opens w.system)
    ∙ ap (λ ns. done ns w) (list_entries-names (os.lstat w.system) true f (h.told w.system))

-- The watches that were set, in order, each with a descriptor behind those that the watcher had,
-- and the config, the builder and the flag `mRecursive` of the watcher as they were.
abbrev pub Watched : Watcher → List Text → Watcher → List Event → Type 0
Watched x ps x' es =
    (es ≡ map watched ps)
    × ((length x'.fds ≡ length x.fds + length ps)
        × ((x'.config ≡ x.config) × ((x'.builder ≡ x.builder) × (x'.recursive ≡ x.recursive))))

pub map_watched-append :
    (ps qs : List Text) → map watched (ps ++ qs) ≡ map watched ps ++ map watched qs
map_watched-append [] qs = refl
map_watched-append (p ∷ ps) qs = ap (λ es. watched p ∷ es) (map_watched-append ps qs)

pub Watched-append :
    (x y z : Watcher) (ps qs : List Text) (es fs : List Event)
    → Watched x ps y es
    → Watched y qs z fs
    → Watched x (ps ++ qs) z (es ++ fs)
Watched-append x y z ps qs es fs (e, (k, (c, (d, r)))) (f, (l, (c', (d', r')))) = (
  rw (e, f) (sym (map_watched-append ps qs)),
  (l ∙ rw (k, length-append ps qs) (omega arith), (c' ∙ c, (d' ∙ d, r' ∙ r))),
)

height-positive : (f : Forest) → 1 ≤ height f
unfolding height
height-positive leaf = omega arith
height-positive (file name next) = height-positive next
height-positive (branch name below next) = omega arith

module _ (os : Os) where
  pub Yields-add_watch :
      (path : Text) (x : Watcher) → Yields (Watched x (path ∷ [])) (add_watch os path x)
  unfolding add_watch
  Yields-add_watch path x =
      Yields-bind {R = λ fd es. es ≡ []} (Yields-system _ (λ s. refl)) λ fd es e.
        Yields-then {R = λ _ fs. fs ≡ watched path ∷ []} (Yields-emit (watched path) refl) λ _ fs f.
          Yields-pure (record x { fds = x.fds ++ (fd ∷ []) })
            (rw (e, f), (length-append x.fds (fd ∷ []), (refl, (refl, refl))))

  Yields-list_dir :
      (dir : Text) (ns : List Text)
      → ((w : World os) → list_dir os dir Dirs.directory w ≡ done ns w)
      → Yields (λ dirs es. (dirs ≡ ns) × (es ≡ [])) (list_dir os dir Dirs.directory)
  Yields-list_dir dir ns h = record {
    apply = λ w. rw (h w) (
        returns
          (record { events = []; grown = sym (append-nil w.trace); holds = (refl, refl) }, refl));
  }

  -- That the recursive call watches a tree with the fuel that it has.
  abbrev Visits : ℕ → Type 0
  Visits fuel =
      (dir : Text) (f : Forest) (x : Watcher)
      → height f ≤ fuel
      → IsTree os dir f
      → Yields (Watched x (paths dir f)) (recursive_watch os fuel dir x)

  Yields-watch_one :
      (fuel : ℕ) (visits : Visits fuel) (dir name : Text) (below : Forest) (x : Watcher) (b : Bool)
      → height below ≤ fuel
      → (is_dot name ≡ false → IsTree os (sub_path dir name) below)
      → is_dot name ≡ b
      → Yields
          (Watched x (if b then [] else sub_path dir name ∷ paths (sub_path dir name) below))
          (watch_one os (recursive_watch os fuel) dir name x)
  unfolding watch_one
  Yields-watch_one fuel visits dir name below x true h t e =
      rw (watch_one, e) (Yields-pure x (refl, (omega arith, (refl, (refl, refl)))))
  Yields-watch_one fuel visits dir name below x false h t e =
      let path = sub_path dir name in
      rw (watch_one, e)
        (Yields-bind (Yields-add_watch path x) λ y es k.
          Yields-map (λ z fs l. Watched-append x y z (path ∷ []) (paths path below) es fs k l)
            (visits path below y h (t e)))

  Yields-watch_each :
      (fuel : ℕ) (visits : Visits fuel) (dir : Text) (f : Forest) (x : Watcher)
      → height f ≤ suc fuel
      → Below os dir f
      → Yields (Watched x (paths dir f)) (watch_each os (recursive_watch os fuel) dir (names f) x)
  unfolding watch_each names paths height Below
  Yields-watch_each fuel visits dir leaf x h t =
      Yields-pure x (refl, (omega arith, (refl, (refl, refl))))
  Yields-watch_each fuel visits dir (file name next) x h t =
      Yields-watch_each fuel visits dir next x h t
  Yields-watch_each fuel visits dir (branch name below next) x h (here, others) =
      Yields-bind
        (Yields-watch_one fuel visits dir name below x (is_dot name) (omega arith) here refl)
        λ y es k.
          Yields-map (λ z fs l. Watched-append x y z _ (paths dir next) es fs k l)
            (Yields-watch_each fuel visits dir next y (omega arith) others)

  pub recursive_watch-Watched :
      (fuel : ℕ) (dir : Text) (f : Forest) (x : Watcher)
      → height f ≤ fuel
      → IsTree os dir f
      → Yields (Watched x (paths dir f)) (recursive_watch os fuel dir x)
  unfolding recursive_watch
  recursive_watch-Watched zero dir f x h t = let low = height-positive f in absurd (omega arith)
  recursive_watch-Watched (suc fuel) dir f x h (listed, below) =
      Yields-bind (Yields-list_dir dir (names f) (list_dir-names os dir f listed)) λ dirs es (e, g).
        rw (e, g)
          (Yields-watch_each fuel (λ d g y. recursive_watch-Watched fuel d g y) dir f x h below)
