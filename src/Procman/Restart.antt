-- ===== src/Procman/Restart.antt =====
-- `restartAll` of src/procman.cpp: whether it returns, and what it starts.
use renzoku.Prelude.{
  ℕ, ◌<◌, ◌≡◌, refl, subst, ◌∙◌, ◌⊎◌, inl, inr, Bool, true, false, Option, some, List, [], ◌∷◌,
  ◌++◌, arith, if◌then◌else◌, append_assoc, append-nil, All,
}
use renzoku.Text.{bytes, c_str}
use renzoku.World.{Os, World, Ptr, Run, done, stopped, M, deref, ◌>>=◌}
use renzoku.World.Does.{
  Does, Any, IsReady, After, Returns, returns, Does-bind, Does-then, Does-pure, started_by,
}
use renzoku.World.Starts.{Starts, Starts-bind, Starts-then, Starts-Does, Starts-pure, Starts-if}
use renzoku.Log.{success, error}
use renzoku.Log.Returns.{Does-log_me, plain-Fits}
use renzoku.Process.Starts.{IsParent, Does-run, Does-run_and_wait, Does-kill}
use renzoku.Procman.{
  kill_all, ProcessManager, report, run_build, run_all, run_processes, kill_each,
  halt_construction_procs, start_program, halt_program, relaunch, restart_all,
}

abbrev pub Below : ℕ → List Ptr → Type 0
Below n = All (λ p. p < n)

-- The pointers of a manager with a build step and a program, all to objects on the heap.
pub record IsComplete (n : ℕ) (pm : ProcessManager) (b p : Ptr) : Type 0 where
  pub build_step : pm.build_step ≡ some b
  pub program : pm.program ≡ some p
  pub builder_below : b < n
  pub program_below : p < n
  pub processes_below : Below n pm.processes

Returns-done :
    {os : Os} {A : Type 0} {P : A → World os → Type 0} {a : A} {w : World os}
    → Returns P (done a w)
    → P a w
Returns-done (returns h) = h

Returns-map :
    {os : Os} {A : Type 0} {P Q : A → World os → Type 0} {r : Run os A}
    → ((a : A) (w : World os) → P a w → Q a w)
    → Returns P r
    → Returns Q r
Returns-map f (returns h) = returns (f _ _ h)

-- What `restartAll` has started, by the result of the `runBuild` behind `haltConstructionProcs`.
pub record Restarted {os : Os} (pm : ProcessManager) (b p : Ptr) (w w' : World os) : Type 0 where
  pub halted : World os
  pub built : World os
  pub ok : Bool
  pub halts : halt_construction_procs os pm w ≡ done tt halted
  pub builds : run_build os pm halted ≡ done ok built
  pub starts :
      started_by w'.trace
      ≡ started_by w.trace ++ (b ∷ (if ok then pm.processes ++ (p ∷ []) else []))

module _ {os : Os} {n : ℕ} {A : Type 0} {Q : A → Type 0} {qs : List Ptr} where
  pub Does-deref :
      {o : Option Ptr} {p : Ptr} (k : Ptr → M os A)
      → o ≡ some p
      → Does n Q qs (k p)
      → Does n Q qs (deref {os = os} o >>= k)
  Does-deref k e d = rw e (record { apply = λ w r. d.apply w r })

module _ (os : Os) {n : ℕ} where
  Does-kill_each : (ps : List Ptr) → Below n ps → Does n Any [] (kill_each os ps)
  unfolding kill_each
  Does-kill_each [] h = Does-pure tt
  Does-kill_each (p ∷ ps) h = Does-then (Does-kill os p h.0) (Does-kill_each ps h.1)

  pub Does-halt :
      (pm : ProcessManager) → Below n pm.processes → Does n Any [] (halt_construction_procs os pm)
  unfolding halt_construction_procs
  Does-halt pm h = Does-kill_each pm.processes h

  -- `killAll` of a complete manager returns and starts nothing.
  pub Does-kill_all :
      {b p : Ptr} (pm : ProcessManager) → IsComplete n pm b p → Does n Any [] (kill_all os pm)
  unfolding kill_all halt_program
  Does-kill_all pm v = Does-deref _ v.build_step (
      Does-then (Does-kill os _ v.builder_below) (
        Does-then (Does-halt pm v.processes_below)
          (Does-deref _ v.program (Does-then (Does-kill os _ v.program_below) (Does-pure tt)))))

module _ (os : Os) (parent : IsParent os) {n : ℕ} where
  Does-report : (ok : Bool) → Does n Any [] (report os ok)
  unfolding report bytes c_str
  Does-report true =
      Does-log_me success _ _ (plain-Fits (bytes "Successfully ran command") (omega arith))
  Does-report false =
      Does-log_me error _ _ (plain-Fits (bytes "A command failed to run :(") (omega arith))

  pub Does-run_build :
      (pm : ProcessManager) (b : Ptr)
      → pm.build_step ≡ some b
      → b < n
      → Does n Any (b ∷ []) (run_build os pm)
  unfolding run_build
  Does-run_build pm b e h = Does-deref _ e (
      Does-bind (Does-run_and_wait os parent b h)
        (λ ok _. Does-then (Does-report ok) (Does-pure tt)))

  Does-run_all : (ps : List Ptr) → Below n ps → Does n Any ps (run_all os ps)
  unfolding run_all
  Does-run_all [] h = Does-pure tt
  Does-run_all (p ∷ ps) h =
      Does-bind (Does-run_and_wait os parent p h.0)
        (λ ok _. Does-then (Does-report ok) (Does-run_all ps h.1))

  Does-run_processes :
      (pm : ProcessManager) → Below n pm.processes → Does n Any pm.processes (run_processes os pm)
  unfolding run_processes
  Does-run_processes pm h =
      subst (λ ps. Does n Any ps (run_processes os pm)) (append-nil pm.processes)
        (Does-then (Does-run_all pm.processes h) (Does-pure tt))

  pub Does-relaunch :
      (pm : ProcessManager) (b p : Ptr)
      → IsComplete n pm b p
      → Does n Any (pm.processes ++ (p ∷ [])) (relaunch os pm)
  unfolding relaunch halt_program start_program
  Does-relaunch pm b p v = Does-then (Does-run_processes pm v.processes_below) (
      Does-then {P = Any}
        (Does-deref _ v.program
          (Does-then {P = Any} (Does-kill os p v.program_below) (Does-pure tt)))
        (Does-deref _ v.program (Does-then (Does-run os parent p v.program_below) (Does-pure tt))))

  starts_both :
      (pm : ProcessManager) (b p : Ptr) (w halted built : World os) (ok : Bool)
      → IsComplete n pm b p
      → IsReady n w
      → halt_construction_procs os pm w ≡ done tt halted
      → run_build os pm halted ≡ done ok built
      → Returns
          (λ _ w'.
            started_by w'.trace
            ≡ started_by w.trace ++ (b ∷ (if ok then pm.processes ++ (p ∷ []) else [])))
          (restart_all os pm w)
  unfolding restart_all
  starts_both pm b p w halted built false v r eh eb =
      let first = Returns-done (rw eh at ((Does-halt os pm v.processes_below).apply w r)) in
      let second = Returns-done (
        rw eb at ((Does-run_build pm b v.build_step v.builder_below).apply halted first.1.ready)) in
      rw (eh, eb) (returns (second.1.starts ∙ rw (first.1.starts, append-nil (started_by w.trace))))
  starts_both pm b p w halted built true v r eh eb =
      let first = Returns-done (rw eh at ((Does-halt os pm v.processes_below).apply w r)) in
      let second = Returns-done (
        rw eb at ((Does-run_build pm b v.build_step v.builder_below).apply halted first.1.ready)) in
      rw (eh, eb)
        (Returns-map
          (λ _ _ (_, third).
            third.starts ∙ rw (second.1.starts, first.1.starts) (simp (append-nil, append_assoc)))
          ((Does-relaunch pm b p v).apply built second.1.ready))

  starts_built :
      (pm : ProcessManager) (b p : Ptr) (w halted : World os) (r : Run os Bool)
      → IsComplete n pm b p
      → IsReady n w
      → halt_construction_procs os pm w ≡ done tt halted
      → run_build os pm halted ≡ r
      → Returns (λ ok built. Any ok × After n halted (b ∷ []) built) r
      → Returns (λ _ w'. Restarted pm b p w w') (restart_all os pm w)
  starts_built pm b p w halted (done ok built) v r eh eb (returns _) =
      Returns-map
        (λ _ _ e. record {
          halted = halted;
          built = built;
          ok = ok;
          halts = eh;
          builds = eb;
          starts = e;
        })
        (starts_both pm b p w halted built ok v r eh eb)
  starts_built pm b p w halted (stopped _ _) v r eh eb h = elim h [ ]

  starts_halted :
      (pm : ProcessManager) (b p : Ptr) (w : World os) (r : Run os (Unit {0}))
      → IsComplete n pm b p
      → IsReady n w
      → halt_construction_procs os pm w ≡ r
      → Returns (λ a halted. Any a × After n w [] halted) r
      → Returns (λ _ w'. Restarted pm b p w w') (restart_all os pm w)
  starts_halted pm b p w (done u halted) v r eh (returns first) =
      starts_built pm b p w halted (run_build os pm halted) v r eh refl
        ((Does-run_build pm b v.build_step v.builder_below).apply halted first.1.ready)
  starts_halted pm b p w (stopped _ _) v r eh h = elim h [ ]

  -- `restartAll` always returns where `fork` does not answer as in the child, each pointer of the
  -- manager is set and each object has a command. If the build fails, it has started the build
  -- step alone. If the build succeeds, it has started the build step, then each process between
  -- build and launch in order, then the program: whatever the results of those processes are.
  pub restart_all_starts :
      (pm : ProcessManager) (b p : Ptr) (w : World os)
      → IsComplete n pm b p
      → IsReady n w
      → Returns (λ _ w'. Restarted pm b p w w') (restart_all os pm w)
  restart_all_starts pm b p w v r =
      starts_halted pm b p w (halt_construction_procs os pm w) v r refl
        ((Does-halt os pm v.processes_below).apply w r)

  pub Starts-restart_all :
      (pm : ProcessManager) (b p : Ptr)
      → IsComplete n pm b p
      → Starts n (λ _ ps. (ps ≡ b ∷ []) ⊎ (ps ≡ b ∷ (pm.processes ++ (p ∷ [])))) (restart_all os pm)
  unfolding restart_all
  Starts-restart_all pm b p v =
      Starts-then {R = λ _ ps. ps ≡ []}
        (Starts-Does (λ _ _. refl) (Does-halt os pm v.processes_below))
        λ _ ps e.
          Starts-bind {R = λ _ ps. ps ≡ b ∷ []}
            (Starts-Does (λ _ _. refl) (Does-run_build pm b v.build_step v.builder_below))
            (λ ok qs f.
              Starts-if ok
                (Starts-Does {P = Any} (λ _ _. rw (e, f) (inr refl)) (Does-relaunch pm b p v))
                (Starts-pure tt (rw (e, f) (inl refl))))
