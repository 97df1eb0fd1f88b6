-- ===== src/Main/Paced.antt =====
-- How often the loop of src/main.cpp restarts the program.
use renzoku.Prelude.{ℕ, ◌+◌, ◌*◌, ◌≤◌, ◌≡◌, List, ◌++◌}
use renzoku.World.{Os, World, Ptr}
use renzoku.World.Does.{Returns, started_by}
use renzoku.World.Paces.{Paces}
use renzoku.Watcher.{Watcher}
use renzoku.Watcher.Paced.{Paced}

-- The rounds from `x` to `x'` have rebuilt as `Paced` says, between the clocks of the two worlds,
-- with `restarts` restarts. So these have taken five seconds each on the clock.
pub record IsLimited {os : Os} (now : os.State → ℕ) (b p : Ptr) (processes : List Ptr) (x : Watcher)
    (w : World os) (x' : Watcher) (w' : World os) : Type 0 where
  pub starts : List Ptr
  pub restarts : ℕ
  pub grown : started_by w'.trace ≡ started_by w.trace ++ starts
  pub paced : Paced b processes p x.timer (now w.system) restarts starts x'.timer (now w'.system)
  pub limited : x.timer + 5 * restarts ≤ now w'.system
