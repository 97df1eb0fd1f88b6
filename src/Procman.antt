-- ===== src/Procman.antt =====
-- src/procman.cpp and src/procman.hpp: class ProcessManager.
pub mod Restart
pub mod Setup
pub mod Destroy
pub mod Clocked
pub mod Unread
pub mod Apart
pub mod Tests
use renzoku.Prelude.{Bool, true, false, Option, none, some, List, [], ◌∷◌, ◌++◌, if◌then◌else◌}
use renzoku.Text.{bytes}
use renzoku.World.{Os, Ptr, M, ◌>>=◌, ◌>>◌, pure, throw, deref}
use renzoku.Log.{success, error, log_me}
use renzoku.Process.{run, run_and_wait, kill, delete}

-- The logger is the one of the world.
pub record ProcessManager : Type 0 where
  pub build_step : Option Ptr
  pub processes : List Ptr
  pub program : Option Ptr

abbrev pub empty : ProcessManager
empty = record { build_step = none; processes = []; program = none }

module _ (os : Os) where
  -- The two lines that `runBuild` and `runProcesses` print behind a command.
  pub report : Bool → M os (Unit {0})
  report true = log_me os success (bytes "Successfully ran command") []
  report false = log_me os error (bytes "A command failed to run :(") []

  pub run_build : ProcessManager → M os Bool
  run_build pm = do b ← deref pm.build_step; ok ← run_and_wait os b; report ok; pure ok

  -- The loop of `runProcesses`.
  pub run_all : List Ptr → M os (Unit {0})
  run_all [] = pure tt
  run_all (p ∷ ps) = do ok ← run_and_wait os p; report ok; run_all ps

  pub run_processes : ProcessManager → M os Bool
  run_processes pm = do run_all pm.processes; pure true

  -- The loop of `haltConstructionProcs`.
  pub kill_each : List Ptr → M os (Unit {0})
  kill_each [] = pure tt
  kill_each (p ∷ ps) = do kill os p; kill_each ps

  pub halt_construction_procs : ProcessManager → M os (Unit {0})
  halt_construction_procs pm = kill_each pm.processes

  pub start_program : ProcessManager → M os (Unit {0})
  start_program pm = do p ← deref pm.program; run os p; pure tt

  pub halt_program : ProcessManager → M os (Unit {0})
  halt_program pm = do p ← deref pm.program; kill os p; pure tt

  pub kill_all : ProcessManager → M os (Unit {0})
  kill_all pm = do b ← deref pm.build_step; kill os b; halt_construction_procs pm; halt_program pm

  -- What `restartAll` does behind a build that succeeded.
  pub relaunch : ProcessManager → M os (Unit {0})
  relaunch pm = do run_processes pm; halt_program pm; start_program pm

  pub restart_all : ProcessManager → M os (Unit {0})
  restart_all pm = do
    halt_construction_procs pm
    ok ← run_build pm
    if ok then relaunch pm else pure tt

  pub set_builder : Ptr → ProcessManager → M os ProcessManager
  set_builder p pm = set_unset pm.build_step
    where
      set_unset : Option Ptr → M os ProcessManager
      set_unset none = pure (record pm { build_step = some p })
      set_unset (some q) = throw (bytes "Build Step already set")

  pub add_process : Ptr → ProcessManager → M os ProcessManager
  add_process p pm = pure (record pm { processes = pm.processes ++ (p ∷ []) })

  pub set_program : Ptr → ProcessManager → M os ProcessManager
  set_program p pm = set_unset pm.program
    where
      set_unset : Option Ptr → M os ProcessManager
      set_unset none = pure (record pm { program = some p })
      set_unset (some q) = throw (bytes "Pogram already set")

  -- `delete` of a pointer that may be null.
  pub delete_if_set : Option Ptr → M os (Unit {0})
  delete_if_set none = pure tt
  delete_if_set (some p) = delete os p

  pub delete_each : List Ptr → M os (Unit {0})
  delete_each [] = pure tt
  delete_each (p ∷ ps) = do delete os p; delete_each ps

  -- The destructor.
  pub destroy : ProcessManager → M os (Unit {0})
  destroy pm = do delete_each pm.processes; delete_if_set pm.build_step; delete_if_set pm.program
