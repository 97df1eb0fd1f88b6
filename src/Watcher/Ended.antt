-- ===== src/Watcher/Ended.antt =====
-- The destructor of src/watcher.cpp, with `killAll` of src/procman.cpp.
use renzoku.Prelude.{ℤ, ℕ, List, [], ◌∷◌}
use renzoku.World.{Os, unwatched}
use renzoku.World.Does.{Does, Any, Does-then, Does-pure, Does-system, Does-emit, started_by}
use renzoku.Procman.Restart.{Does-kill_all}
use renzoku.Watcher.{Watcher, remove_watches, destroy}
use renzoku.Watcher.Rebuild.{IsArmed}

module _ (os : Os) {n : ℕ} where
  Does-remove_watches : (inotify : ℤ) (fds : List ℤ) → Does n Any [] (remove_watches os inotify fds)
  unfolding remove_watches started_by
  Does-remove_watches inotify [] = Does-pure tt
  Does-remove_watches inotify (fd ∷ fds) =
      Does-then (Does-system {P = Any} (λ s. os.inotify_rm_watch s (inotify, fd)) (λ _. tt))
        (Does-then (Does-emit (unwatched fd)) (Does-remove_watches inotify fds))

  pub Does-destroy :
      {b p : ℕ} {processes : List ℕ} (x : Watcher)
      → IsArmed n b p processes x
      → Does n Any [] (destroy os x)
  unfolding destroy
  Does-destroy x v =
      Does-then (Does-kill_all os x.config.procman v.complete) (Does-remove_watches x.inotify x.fds)
