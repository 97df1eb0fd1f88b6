-- ===== src/Util/Dirs/Laws.antt =====
-- `listDir` and `cwd` of src/util.cpp where they succeed.
use renzoku.Prelude.{◌≡◌, refl, true, some, List}
use renzoku.Text.{Text}
use renzoku.World.{Os, World, done}
use renzoku.Util.Dirs.{FileType, list_entries, cwd, list_dir}

pub list_dir_lem :
    (os : Os) (path : Text) (ft : FileType) (found : List Text) (w : World os)
    → os.lstat w.system path ≡ some true
    → os.opendir w.system path ≡ some found
    → list_dir os path ft w ≡ done (list_entries (os.lstat w.system) ft true found) w
unfolding list_dir
list_dir_lem os path ft found w e f = rw (e, list_dir) (rw f refl)

pub cwd_lem :
    (os : Os) (here : Text) (w : World os) → os.getcwd w.system ≡ some here → cwd os w ≡ done here w
unfolding cwd
cwd_lem os here w e = rw (e, cwd) refl
