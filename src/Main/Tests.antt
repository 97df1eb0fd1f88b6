-- ===== src/Main/Tests.antt =====
-- Two rounds of the loop of `main` on a small system.
use renzoku.Prelude.{ℕ, ◌≡◌, true, false, [], ◌∷◌, arith}
use renzoku.World.Does.{Returns}
use renzoku.World.Starts.{Started}
use renzoku.World.Example.{small_os, three_processes}
use renzoku.Process.Tests.{small_os-IsParent, three_processes-IsReady}
use renzoku.Watcher.Tests.{watcher, watcher-IsArmed}
use renzoku.Watcher.Rebuild.{Rebuilt}
use renzoku.Main.{running, listen_while, listen_rounds}
use renzoku.Main.Loop.{rounds_then_handler, listen_while-rounds}
use renzoku.Main.Rounds.{listen_rounds-Rebuilds}

listen_rounds-Rebuilds_example :
    Returns
      (λ x' w'. Started 3 three_processes (Rebuilt 3 0 2 (1 ∷ []) x') w')
      (listen_rounds small_os 2 watcher three_processes)
listen_rounds-Rebuilds_example =
    listen_rounds-Rebuilds small_os small_os-IsParent 0 2 (1 ∷ []) (λ s fd. (omega arith, tt)) 2
      watcher three_processes watcher-IsArmed three_processes-IsReady

-- SIGINT in the second round.
listen_while-rounds_example :
    listen_while small_os (false ∷ true ∷ false ∷ []) running watcher three_processes
    ≡ rounds_then_handler small_os 1 watcher three_processes
listen_while-rounds_example = listen_while-rounds small_os 1 (false ∷ []) watcher three_processes

-- The clock of the system is its state.
abbrev clock : ℕ → ℕ
clock s = s
