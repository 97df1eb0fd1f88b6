-- ===== src/Procman/Tests.antt =====
-- The ProcessManager on a small system, with a build step, a test and a program.
use renzoku.Prelude.{◌≡◌, refl, some, [], ◌∷◌, arith}
use renzoku.World.Does.{Returns}
use renzoku.World.Example.{small_os, three_processes}
use renzoku.Process.Tests.{small_os-IsParent, three_processes-IsReady}
use renzoku.Procman.{ProcessManager, restart_all, destroy}
use renzoku.Procman.Apart.{IsApart}
use renzoku.Procman.Destroy.{AreGone, pointers, destroy-AreGone}
use renzoku.World.Changes.{changed, changed_run}
use renzoku.Procman.Unread.{destroy-changed}
use renzoku.World.Ends.{Ends}
use renzoku.Procman.Restart.{IsComplete, Restarted, restart_all_starts}

abbrev pub manager : ProcessManager
manager = record { build_step = some 0; processes = 1 ∷ []; program = some 2 }

pub manager-IsComplete : IsComplete 3 manager 0 2
manager-IsComplete = record {
  build_step = refl;
  program = refl;
  builder_below = omega arith;
  program_below = omega arith;
  processes_below = (omega arith, tt);
}

restart_all_starts_example :
    Returns
      (λ _ w'. Restarted manager 0 2 three_processes w')
      (restart_all small_os manager three_processes)
restart_all_starts_example =
    restart_all_starts small_os small_os-IsParent manager 0 2 three_processes manager-IsComplete
      three_processes-IsReady

manager-IsApart : IsApart 3 manager
manager-IsApart = record {
  processes_below = (omega arith, tt);
  build_below = omega arith;
  program_below = omega arith;
  processes = (tt, tt);
  build = ((λ e. omega arith), tt);
  program = ((λ e. omega arith), tt);
  both = λ e. omega arith;
}

destroy-AreGone_example :
    Ends
      (λ _ w'. AreGone (pointers manager) three_processes w')
      ⊥
      (destroy small_os manager three_processes)
destroy-AreGone_example =
    destroy-AreGone small_os manager three_processes manager-IsApart ((_, refl), tt) ((_, refl), tt)
      ((_, refl), tt)

-- All commands are gone.
destroy-changed_example :
    destroy small_os manager (changed (λ command. []) three_processes)
    ≡ changed_run (λ command. []) (destroy small_os manager three_processes)
destroy-changed_example = destroy-changed (λ command. []) small_os manager three_processes
