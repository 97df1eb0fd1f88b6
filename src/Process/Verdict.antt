-- ===== src/Process/Verdict.antt =====
-- The results of `run` and `runAndWait` of src/process.cpp, and the system calls that were made.
use renzoku.Prelude.{
  Option, some, none, ℤ, pos, negsuc, is_positive, ℕ, zero, suc, ◌<◌, ◌≡◌, refl, sym, Bool, true,
  false, not, ◌&&◌, List, [], ◌∷◌, ◌++◌, ◌==◌, append-nil, All,
}
use renzoku.Text.{Text, bytes}
use renzoku.World.{
  Os, World, Ptr, Waited, Event, started, waited, signalled, slept, wrote, watched, unwatched,
  deleted,
}
use renzoku.World.Traces.{
  Traces, Emits, ends, emits, Traces-map, Traces-bind, Traces-then, Traces-pure, Traces-emit,
  Traces-system, Traces-store, Traces-load, Traces-if, Idle, IsIdle,
}
use renzoku.World.Does.{IsReady, Returns}
use renzoku.World.Emitted.{Emitted, Returns-Emitted}
use renzoku.Process.Starts.{IsParent, Does-run_and_wait}
use renzoku.Log.{error, debug}
use renzoku.Log.Quiet.{Traces-log_me, Traces-log_error}
use renzoku.Process.Arguments.{args_string}
use renzoku.Process.{
  fork_child, wait_child, report_wait, name_of, report_failure, reap, run_parent, run_forked, run,
  run_and_wait, run_child, log_command, run_command, execute,
}

-- A `waitpid` that reports the child with a status other than 0.
unfoldable pub reports_failure : Waited → Bool
reports_failure answer = is_positive answer.pid && not (answer.status == 0)

unfoldable pub fork_fails : ℤ → Bool
fork_fails (negsuc zero) = true
fork_fails _ = false

-- No `fork` among the events has failed, and no `waitpid` reports a failure.
unfoldable pub verdict : List Event → Bool
verdict [] = true
verdict (started p answer ∷ es) = not (fork_fails answer) && verdict es
verdict (waited pid answer ∷ es) = not (reports_failure answer) && verdict es
verdict (signalled pid signal answer ∷ es) = verdict es
verdict (slept n ∷ es) = verdict es
verdict (wrote s line ∷ es) = verdict es
verdict (watched path ∷ es) = verdict es
verdict (unwatched watch ∷ es) = verdict es
verdict (deleted command ∷ es) = verdict es

&&-true : (a : Bool) → (a && true) ≡ a
&&-true true = refl
&&-true false = refl

&&-assoc : (a b c : Bool) → ((a && b) && c) ≡ (a && (b && c))
&&-assoc true b c = refl
&&-assoc false b c = refl

verdict-append : (es fs : List Event) → verdict (es ++ fs) ≡ (verdict es && verdict fs)
unfolding verdict
verdict-append [] fs = refl
verdict-append (started p answer ∷ es) fs =
    rw (verdict-append es fs) (sym (&&-assoc (not (fork_fails answer)) (verdict es) (verdict fs)))
verdict-append (waited pid answer ∷ es) fs =
    rw (verdict-append es fs)
      (sym (&&-assoc (not (reports_failure answer)) (verdict es) (verdict fs)))
verdict-append (signalled pid signal answer ∷ es) fs = verdict-append es fs
verdict-append (slept n ∷ es) fs = verdict-append es fs
verdict-append (wrote s line ∷ es) fs = verdict-append es fs
verdict-append (watched path ∷ es) fs = verdict-append es fs
verdict-append (unwatched watch ∷ es) fs = verdict-append es fs
verdict-append (deleted command ∷ es) fs = verdict-append es fs

verdict-IsIdle : (es : List Event) → All IsIdle es → verdict es ≡ true
unfolding verdict
verdict-IsIdle [] h = refl
verdict-IsIdle (started p answer ∷ es) h = absurd h.0
verdict-IsIdle (waited pid answer ∷ es) h = absurd h.0
verdict-IsIdle (signalled pid signal answer ∷ es) h = absurd h.0
verdict-IsIdle (slept n ∷ es) h = verdict-IsIdle es h.1
verdict-IsIdle (wrote s line ∷ es) h = verdict-IsIdle es h.1
verdict-IsIdle (watched path ∷ es) h = absurd h.0
verdict-IsIdle (unwatched watch ∷ es) h = absurd h.0
verdict-IsIdle (deleted command ∷ es) h = absurd h.0

-- The result of a call is the verdict on what it did.
abbrev pub Judges : Bool → List Event → Type 0
Judges ok es = ok ≡ verdict es

module _ (os : Os) where
  execute_any :
      (in_path : Bool) (command : List Text)
      → Traces (λ _ es. Unit {0}) (execute os in_path command)
  unfolding execute
  execute_any in_path command = record {
    apply = λ w. answered w (os.exec w.system in_path command) refl;
  }
    where
      answered :
          (w : World os) (b : Bool)
          → os.exec w.system in_path command ≡ b
          → Emits (λ _ es. Unit {0}) w (execute os in_path command w)
      answered w true e = rw (e, execute) ends
      answered w false e = rw (e, execute) (emits [] (sym (append-nil w.trace)) tt)

  Traces-wait_child :
      (pid : ℤ) (no_hang : Bool)
      → Traces (λ answer es. verdict es ≡ not (reports_failure answer)) (wait_child os pid no_hang)
  unfolding wait_child verdict
  Traces-wait_child pid no_hang =
      Traces-bind {R = λ answer es. es ≡ []} (Traces-system _ (λ answer. refl)) λ answer es e.
        Traces-then {R = λ _ fs. fs ≡ waited pid answer ∷ []} (Traces-emit (waited pid answer) refl)
          λ _ fs f. Traces-pure answer (rw (e, f) (&&-true _))

  Traces-report_wait : (answer : Waited) → Traces Idle (report_wait os answer)
  unfolding report_wait
  Traces-report_wait answer = record {
    apply = λ w.
        (Traces-if {R = Idle} _ (λ _. Traces-log_error os (bytes "waitpid"))
            (λ _. Traces-pure tt tt)).apply
          w;
  }

  -- It returns false where it returns.
  Traces-report_failure :
      (command : List Text)
      → Traces (λ ok es. (ok ≡ false) × All IsIdle es) (report_failure os command)
  unfolding report_failure name_of
  Traces-report_failure [] = record { apply = λ w. ends }
  Traces-report_failure (name ∷ arguments) =
      Traces-then {R = Idle} (Traces-log_me os error _ _)
        λ _ es h. Traces-pure false (refl, rw (append-nil es) h)

  Traces-reap : (p : Ptr) (no_hang : Bool) → Traces Judges (reap os p no_hang)
  unfolding reap reports_failure
  Traces-reap p no_hang = Traces-bind {R = λ x es. es ≡ []} (Traces-load p (λ x. refl)) λ x es e.
      Traces-bind (Traces-wait_child x.proc no_hang) λ answer fs f.
        Traces-then (Traces-report_wait answer) λ _ gs g.
          Traces-if (is_positive answer.pid && not (answer.status == 0))
            (λ bad.
              Traces-map (λ ok hs k. rw (e, verdict-append fs (gs ++ hs), f, bad, k.0))
                (Traces-report_failure x.command))
            (λ good.
              Traces-pure true
                (rw (e, verdict-append fs (gs ++ []), f, good, append-nil gs, verdict-IsIdle gs g)))

  Traces-run_parent : (p : Ptr) → Traces Judges (run_parent os p)
  unfolding run_parent
  Traces-run_parent p = Traces-bind {R = λ x es. es ≡ []} (Traces-load p (λ x. refl)) λ x es e.
      Traces-then {R = Idle} (Traces-log_me os debug _ _) λ _ fs f.
        Traces-then {R = Idle} (Traces-emit (slept 10) (tt, tt)) λ _ gs g.
          Traces-map
            (λ ok hs k.
              rw
                (
                  e,
                  verdict-append fs (gs ++ hs),
                  verdict-append gs hs,
                  verdict-IsIdle fs f,
                  verdict-IsIdle gs g,
                )
                k)
            (Traces-reap p true)

  -- The child does not return.
  Traces-run_child : (p : Ptr) → Traces (λ ok es. ⊥) (run_child os p)
  unfolding run_child run_command log_command
  Traces-run_child p = Traces-then {R = Idle} (Traces-log_me os debug _ _) λ _ es e.
      Traces-bind {R = λ x es. es ≡ []} (Traces-load p (λ x. refl))
        λ x fs f. becomes x.search_in_path x.command
    where
      logged : (name : Text) (o : Option Text) → Traces (λ _ es. Unit {0}) (log_command os name o)
      logged name none = record { apply = λ w. ends }
      logged name (some line) = Traces-map (λ _ es e. tt) (Traces-log_me os debug _ _)

      becomes :
          (in_path : Bool) (command : List Text)
          → Traces (λ ok es. ⊥) (run_command os in_path command)
      becomes in_path [] = record { apply = λ w. ends }
      becomes in_path (name ∷ arguments) =
          Traces-then {R = λ _ es. Unit {0}} (logged name (args_string arguments)) λ _ es e.
            Traces-then {R = λ _ gs. Unit {0}} (execute_any in_path (name ∷ arguments)) λ _ fs f.
              Traces-then {R = Idle} (Traces-log_me os error _ _)
                λ _ gs g. record { apply = λ w. ends }

  Traces-run_forked :
      (p : Ptr) (answer : ℤ)
      → Traces (λ ok es. ok ≡ (not (fork_fails answer) && verdict es)) (run_forked os p answer)
  unfolding run_forked fork_fails
  Traces-run_forked p (negsuc zero) = Traces-then {R = Idle} (Traces-log_me os error _ _) λ _ es e.
      Traces-then {R = Idle} (Traces-log_error os (bytes "fork")) λ _ fs f. Traces-pure false refl
  Traces-run_forked p (negsuc (suc k)) = Traces-run_parent p
  Traces-run_forked p (pos zero) = Traces-map (λ ok es h. absurd h) (Traces-run_child p)
  Traces-run_forked p (pos (suc k)) = Traces-run_parent p

  Traces-fork_child : (p : Ptr) → Traces (λ answer es. es ≡ started p answer ∷ []) (fork_child os p)
  unfolding fork_child
  Traces-fork_child p = Traces-bind {R = λ x es. es ≡ []} (Traces-load p (λ x. refl)) λ x es e.
      Traces-bind {R = λ answer es. es ≡ []} (Traces-system _ (λ answer. refl)) λ answer fs f.
        Traces-then {R = λ _ gs. gs ≡ started p answer ∷ []} (Traces-emit (started p answer) refl)
          λ _ gs g.
            Traces-then {R = λ _ hs. hs ≡ []} (Traces-store p (record x { proc = answer }) refl)
              λ _ hs h. Traces-pure answer (rw (e, f, g, h))

  -- Wherever `run` returns, its result is the verdict on the events that it has added.
  Traces-run : (p : Ptr) → Traces Judges (run os p)
  unfolding run verdict
  Traces-run p =
      Traces-bind (Traces-fork_child p)
        λ answer es e. Traces-map (λ ok fs k. rw e k) (Traces-run_forked p answer)

  Traces-run_and_wait : (p : Ptr) → Traces Judges (run_and_wait os p)
  unfolding run_and_wait
  Traces-run_and_wait p = Traces-bind (Traces-run p) λ ok es e.
      Traces-if ok
        (λ good.
          Traces-map (λ ok' fs k. rw (verdict-append es fs, ← e, good) k) (Traces-reap p false))
        (λ bad. Traces-pure false (rw (append-nil es, ← e, bad)))

  -- `runAndWait` always returns where `fork` does not answer as in the child and each object has
  -- a command. It has returned true exactly if no `fork` that it made failed and no `waitpid`
  -- reported a child with a status other than 0.
  pub run_and_wait-Judges :
      {n : ℕ} (p : Ptr) (w : World os)
      → IsParent os
      → p < n
      → IsReady n w
      → Returns (Emitted Judges w) (run_and_wait os p w)
  run_and_wait-Judges p w parent h r =
      Returns-Emitted ((Traces-run_and_wait p).apply w)
        ((Does-run_and_wait os parent p h).apply w r)
