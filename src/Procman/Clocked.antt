-- ===== src/Procman/Clocked.antt =====
-- `restartAll` of src/procman.cpp takes time only forward.
use renzoku.Prelude.{ℕ, Bool, true, false, List, [], ◌∷◌}
use renzoku.World.{Os, Ptr}
use renzoku.World.Clocked.{
  IsClock, Clocked, Clocked-bind, Clocked-then, Clocked-pure, Clocked-if, Clocked-deref,
}
use renzoku.Log.{success, error}
use renzoku.Log.Clocked.{Clocked-log_me}
use renzoku.Process.Clocked.{Clocked-kill, Clocked-run, Clocked-run_and_wait}
use renzoku.Procman.{
  ProcessManager, report, run_build, run_all, run_processes, kill_each, halt_construction_procs,
  start_program, halt_program, relaunch, restart_all,
}

module _ {os : Os} (now : os.State → ℕ) (c : IsClock os now) where
  Clocked-report : (ok : Bool) → Clocked now (report os ok)
  unfolding report
  Clocked-report true = Clocked-log_me now c success _ _
  Clocked-report false = Clocked-log_me now c error _ _

  Clocked-run_build : (pm : ProcessManager) → Clocked now (run_build os pm)
  unfolding run_build
  Clocked-run_build pm = Clocked-bind now (Clocked-deref now pm.build_step) λ b.
      Clocked-bind now (Clocked-run_and_wait now c b)
        λ ok. Clocked-then now (Clocked-report ok) (Clocked-pure now ok)

  Clocked-run_all : (ps : List Ptr) → Clocked now (run_all os ps)
  unfolding run_all
  Clocked-run_all [] = Clocked-pure now tt
  Clocked-run_all (p ∷ ps) =
      Clocked-bind now (Clocked-run_and_wait now c p)
        λ ok. Clocked-then now (Clocked-report ok) (Clocked-run_all ps)

  Clocked-kill_each : (ps : List Ptr) → Clocked now (kill_each os ps)
  unfolding kill_each
  Clocked-kill_each [] = Clocked-pure now tt
  Clocked-kill_each (p ∷ ps) = Clocked-then now (Clocked-kill now c p) (Clocked-kill_each ps)

  Clocked-relaunch : (pm : ProcessManager) → Clocked now (relaunch os pm)
  unfolding relaunch run_processes halt_program start_program
  Clocked-relaunch pm =
      Clocked-then now (Clocked-then now (Clocked-run_all pm.processes) (Clocked-pure now true)) (
        Clocked-then now
          (Clocked-bind now (Clocked-deref now pm.program)
            λ p. Clocked-then now (Clocked-kill now c p) (Clocked-pure now tt))
          (Clocked-bind now (Clocked-deref now pm.program)
            λ p. Clocked-then now (Clocked-run now c p) (Clocked-pure now tt)))

  pub Clocked-restart_all : (pm : ProcessManager) → Clocked now (restart_all os pm)
  unfolding restart_all halt_construction_procs
  Clocked-restart_all pm = Clocked-then now (Clocked-kill_each pm.processes) (
      Clocked-bind now (Clocked-run_build pm)
        λ ok. Clocked-if now ok (Clocked-relaunch pm) (Clocked-pure now tt))
