-- ===== src/Procman/Unread.antt =====
-- The destructor of src/procman.cpp behind that of src/config.cpp, which has freed the arrays of
-- the commands.
use renzoku.Prelude.{◌≡◌, Option, none, some, List, [], ◌∷◌}
use renzoku.Text.{Text}
use renzoku.World.{Os, World, Ptr}
use renzoku.World.Changes.{Commutes, Commutes-then, Commutes-pure, changed, changed_run}
use renzoku.Process.Unread.{Commutes-delete}
use renzoku.Procman.{ProcessManager, delete_each, delete_if_set, destroy}

module _ (f : List Text → List Text) (os : Os) where
  Commutes-delete_each : (ps : List Ptr) → Commutes f (delete_each os ps)
  unfolding delete_each
  Commutes-delete_each [] = Commutes-pure f tt
  Commutes-delete_each (p ∷ ps) = Commutes-then f (Commutes-delete f os p) (Commutes-delete_each ps)

  Commutes-delete_if_set : (o : Option Ptr) → Commutes f (delete_if_set os o)
  unfolding delete_if_set
  Commutes-delete_if_set none = Commutes-pure f tt
  Commutes-delete_if_set (some p) = Commutes-delete f os p

  -- The destructor of a manager reads no command that the process has not made itself. Where each
  -- command of the others has been changed by any function before, it does the same: it ends in
  -- the same way, and in the same world but for that change. So it does not matter that the
  -- destructor of Config, which comes first in `main`, has freed the arrays that the processes
  -- share with it.
  pub destroy-changed :
      (pm : ProcessManager) (w : World os)
      → destroy os pm (changed f w) ≡ changed_run f (destroy os pm w)
  unfolding destroy
  destroy-changed pm =
      (Commutes-then f (Commutes-delete_each pm.processes) (
        Commutes-then f (Commutes-delete_if_set pm.build_step)
          (Commutes-delete_if_set pm.program))).apply
