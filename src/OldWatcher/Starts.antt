-- ===== src/OldWatcher/Starts.antt =====
-- What the functions of oldwatcher.c start, where each `fork` answers with the id of a child.
use renzoku.Prelude.{
  ℕ, zero, suc, ℤ, pos, negsuc, is_negative, at_most, ◌≡◌, ◌≢◌, refl, ◌⊎◌, inl, inr, false, List,
  [], ◌∷◌, ◌++◌, ◌==◌, append_assoc, append-nil,
}
use renzoku.Text.{Text, bytes}
use renzoku.World.{Os, Ptr, Waited, started}
use renzoku.World.Does.{
  Does, Any, Does-bind, Does-then, Does-pure, Does-if, Does-emit, Does-system, started_by,
}
use renzoku.World.Starts.{Starts, Starts-map, Starts-bind, Starts-Does, Starts-pure, Starts-if}
use renzoku.Process.{sigterm}
use renzoku.Process.Starts.{IsParent, Does-wait_child, Does-send_signal}
use renzoku.OldWatcher.{
  OldWatcher, build, program, perror, catch_int, report_killed, await_killed, killprog, print_child,
  runprog_forked, runprog, await_build, rebuild_forked, rebuild, restart, rebuild_and_restart,
}

-- One change that is due: the build, and behind it the program, if the build succeeded and the
-- old program is gone.
abbrev pub IsRun : List Ptr → Type 0
IsRun ps = (ps ≡ build ∷ []) ⊎ (ps ≡ build ∷ program ∷ [])

-- Any number of them, one after another.
pub data Runs : List Ptr → Type 0 where
  rest : Runs []
  more : {ps qs : List Ptr} → IsRun ps → Runs qs → Runs (ps ++ qs)

pub Runs-append : (ps qs : List Ptr) → Runs ps → Runs qs → Runs (ps ++ qs)
Runs-append ps qs rest k = k
Runs-append ps qs (more {ps = first} {qs = later} h t) k =
    rw (append_assoc first later qs) (more h (Runs-append later qs t k))

pub Runs-one : (ps : List Ptr) → IsRun ps → Runs ps
Runs-one ps h = rw (← append-nil ps) (more h rest)

module _ (os : Os) {n : ℕ} where
  pub Does-perror : (message : Text) → Does n Any [] (perror os message)
  unfolding perror started_by
  Does-perror message = record { apply = λ w. (Does-emit _).apply w }

  Does-report_killed : (answer : Waited) → Does n Any [] (report_killed os answer)
  unfolding report_killed started_by
  Does-report_killed answer =
      Does-then (Does-if (is_negative answer.pid) (Does-perror (bytes "waitpid")) (Does-pure tt))
        (Does-if (answer.status == 0) (Does-pure tt) (Does-emit _))

  pub Does-killprog : (pid : ℤ) → Does n Any [] (killprog os pid)
  unfolding killprog await_killed
  Does-killprog pid = Does-if (at_most pid 1) (Does-pure tt) (
      Does-bind (Does-send_signal os pid sigterm) λ ok _.
        Does-if ok
          (Does-bind (Does-wait_child os pid false)
            λ answer _. Does-then (Does-report_killed answer) (Does-pure tt))
          (Does-then (Does-perror (bytes "kill")) (Does-pure tt)))

  Does-print_child : (pid : ℤ) → Does n Any [] (print_child os pid)
  unfolding print_child started_by
  Does-print_child pid = Does-emit _

  pub Does-catch_int : (flag : ℕ) → Does n (λ after. after ≡ 0) [] (catch_int os flag)
  unfolding catch_int started_by
  Does-catch_int flag = Does-then (Does-emit _) (Does-pure refl)

-- Each `fork` has a child, and does not answer as in it.
pub record Forks (os : Os) : Type 0 where
  pub parent : IsParent os
  pub succeeds : (s : os.State) → (os.fork s).0 ≢ negsuc 0

module _ (os : Os) (getpid : os.State → ℤ) (forks : Forks os) {n : ℕ} where
  Does-runprog_forked :
      (pid : ℤ) → pid ≢ pos 0 → pid ≢ negsuc 0 → Does n Any [] (runprog_forked os getpid pid)
  unfolding runprog_forked
  Does-runprog_forked (negsuc zero) h k = absurd (k refl)
  Does-runprog_forked (negsuc (suc m)) h k =
      Does-then (Does-print_child os (negsuc (suc m))) (Does-pure tt)
  Does-runprog_forked (pos zero) h k = absurd (h refl)
  Does-runprog_forked (pos (suc m)) h k =
      Does-then (Does-print_child os (pos (suc m))) (Does-pure tt)

  pub Does-runprog : Does n Any (program ∷ []) (runprog os getpid)
  unfolding runprog started_by
  Does-runprog =
      Does-bind
        (Does-system {P = λ pid. (pid ≢ pos 0) × (pid ≢ negsuc 0)} os.fork
          (λ s. (forks.parent s, forks.succeeds s)))
        λ pid (h, k). Does-then (Does-emit (started program pid)) (Does-runprog_forked pid h k)

  Does-await_build : (pid : ℤ) → Does n Any [] (await_build os getpid pid)
  unfolding await_build started_by
  Does-await_build pid = Does-then (Does-print_child os pid) (
      Does-bind (Does-wait_child os pid false) λ answer _.
        Does-then
          (Does-if (is_negative answer.pid) (Does-perror os (bytes "waitpid")) (Does-pure tt))
          (Does-if (answer.status == 0) (Does-pure tt) (Does-then (Does-emit _) (Does-pure tt))))

  Does-rebuild_forked : (pid : ℤ) → pid ≢ pos 0 → Does n Any [] (rebuild_forked os getpid pid)
  unfolding rebuild_forked started_by
  Does-rebuild_forked (negsuc zero) h =
      Does-then (Does-emit _) (Does-then (Does-perror os (bytes "fork")) (Does-pure tt))
  Does-rebuild_forked (negsuc (suc m)) h = Does-await_build (negsuc (suc m))
  Does-rebuild_forked (pos zero) h = absurd (h refl)
  Does-rebuild_forked (pos (suc m)) h = Does-await_build (pos (suc m))

  Does-rebuild : Does n Any (build ∷ []) (rebuild os getpid)
  unfolding rebuild started_by
  Does-rebuild =
      Does-bind (Does-system {P = λ pid. pid ≢ pos 0} os.fork forks.parent)
        λ pid h. Does-then (Does-emit (started build pid)) (Does-rebuild_forked pid h)

  Starts-restart :
      (x : OldWatcher) → Starts n (λ _ ps. (ps ≡ []) ⊎ (ps ≡ program ∷ [])) (restart os getpid x)
  unfolding restart
  Starts-restart x =
      Starts-bind {R = λ _ ps. ps ≡ []}
        (Starts-Does {P = Any} (λ _ _. refl) (Does-system os.time (λ _. tt)))
        λ now ps e.
          Starts-bind {R = λ _ qs. qs ≡ []} (Starts-Does (λ _ _. refl) (Does-killprog os x.progpid))
            λ killed qs f. Starts-if (killed == 0) (Starts-pure _ (inl (rw (e, f) refl))) (
              Starts-bind {R = λ _ rs. rs ≡ program ∷ []} (Starts-Does (λ _ _. refl) Does-runprog)
                λ pid rs g. Starts-pure _ (inr (rw (e, f, g) refl)))

  pub Starts-rebuild_and_restart :
      (x : OldWatcher) → Starts n (λ _ ps. IsRun ps) (rebuild_and_restart os getpid x)
  unfolding rebuild_and_restart
  Starts-rebuild_and_restart x =
      Starts-bind {R = λ _ ps. ps ≡ build ∷ []} (Starts-Does (λ _ _. refl) Does-rebuild)
        λ failed ps e.
          Starts-if (failed == 0) (Starts-map (λ _ qs h. behind ps qs e h) (Starts-restart x))
            (Starts-pure x (inl (rw e refl)))
    where
      behind :
          (ps qs : List Ptr) → ps ≡ build ∷ [] → (qs ≡ []) ⊎ (qs ≡ program ∷ []) → IsRun (ps ++ qs)
      behind ps qs e (inl f) = inl (rw (e, f) refl)
      behind ps qs e (inr f) = inr (rw (e, f) refl)
