-- ===== src/Process/Starts.antt =====
-- The methods of src/process.cpp where `fork` does not answer as in the child: whether they
-- return, and what they start.
use renzoku.Prelude.{
  ℤ, pos, negsuc, ℕ, zero, suc, ◌<◌, ◌≢◌, refl, Bool, true, false, List, [], ◌∷◌, arith,
}
use renzoku.Text.{Text, bytes, c_str}
use renzoku.World.{Os, Ptr, Waited, started, waited, signalled, slept}
use renzoku.World.Does.{
  Does, Any, Does-bind, Does-then, Does-pure, Does-if, Does-emit, Does-system, Does-load,
  Does-store, started_by,
}
use renzoku.Log.{error, success, debug}
use renzoku.Log.Returns.{Does-log_me, Does-log_error, plain-Fits, name-Fits, pid-Fits, exit-Fits}
use renzoku.Process.{
  fork_child, wait_child, send_signal, report_wait, name_of, report_failure, reap, run_parent,
  run_forked, run, run_and_wait, terminate_fails, await_end, report_exit, kill_live, kill, sigterm,
}

module _ (os : Os) {n : ℕ} where
  pub Does-wait_child : (pid : ℤ) (no_hang : Bool) → Does n Any [] (wait_child os pid no_hang)
  unfolding wait_child started_by
  Does-wait_child pid no_hang =
      Does-bind (Does-system {P = Any} (λ s. os.waitpid s pid no_hang) (λ _. tt))
        (λ answer _. Does-then (Does-emit (waited pid answer)) (Does-pure tt))

  pub Does-send_signal : (pid : ℤ) (signal : ℕ) → Does n Any [] (send_signal os pid signal)
  unfolding send_signal started_by
  Does-send_signal pid signal =
      Does-bind (Does-system {P = Any} (λ s. os.kill s pid signal) (λ _. tt))
        (λ answer _. Does-then (Does-emit (signalled pid signal answer)) (Does-pure tt))

  Does-report_wait : (answer : Waited) → Does n Any [] (report_wait os answer)
  unfolding report_wait
  Does-report_wait answer = record {
    apply = λ w. (Does-if _ (Does-log_error (bytes "waitpid")) (Does-pure tt)).apply w;
  }

  Does-report_failure :
      (command : List Text) → command ≢ [] → Does n Any [] (report_failure os command)
  unfolding report_failure name_of
  Does-report_failure [] h = absurd (h refl)
  Does-report_failure (name ∷ arguments) h =
      Does-then (Does-log_me error _ _ (name-Fits name)) (Does-pure tt)

  Does-reap : (p : Ptr) (no_hang : Bool) → p < n → Does n Any [] (reap os p no_hang)
  unfolding reap
  Does-reap p no_hang h = Does-bind (Does-load p h) λ x c.
      Does-bind (Does-wait_child x.proc no_hang) λ answer _.
        Does-then (Does-report_wait answer)
          (Does-if _ (Does-report_failure x.command c) (Does-pure tt))

  Does-run_parent : (p : Ptr) → p < n → Does n Any [] (run_parent os p)
  unfolding run_parent started_by
  Does-run_parent p h = Does-bind (Does-load p h) λ x c.
      Does-then (Does-log_me debug _ _ (pid-Fits x.proc))
        (Does-then (Does-emit (slept 10)) (Does-reap p true h))

  Does-terminate_fails : (pid : ℤ) → Does n Any [] (terminate_fails os pid)
  unfolding terminate_fails
  Does-terminate_fails pid = Does-bind (Does-send_signal pid 0) λ exists _.
      Does-if exists (Does-bind (Does-send_signal pid sigterm) (λ ok _. Does-pure tt))
        (Does-pure tt)

  Does-await_end : (pid : ℤ) → Does n Any [] (await_end os pid)
  unfolding await_end report_exit
  Does-await_end pid = Does-bind (Does-wait_child pid false) λ answer _.
      Does-then (Does-report_wait answer) (
        Does-then (Does-if _ (Does-pure tt) (Does-log_me success _ _ (exit-Fits pid answer.status)))
          (Does-pure tt))

  -- `kill` returns and starts nothing.
  pub Does-kill : (p : Ptr) → p < n → Does n Any [] (kill os p)
  unfolding kill kill_live
  Does-kill p h = Does-bind (Does-load p h) λ x c. Does-if _ (Does-pure tt) (
      Does-bind (Does-terminate_fails x.proc) λ failed _.
        Does-if failed (Does-then (Does-log_error (bytes "kill")) (Does-pure tt))
          (Does-await_end x.proc))

-- The answers of `fork` in a process that does not become the child.
abbrev pub IsParent : Os → Type 0
IsParent os = (s : os.State) → (os.fork s).0 ≢ pos 0

module _ (os : Os) (parent : IsParent os) {n : ℕ} where
  Does-fork_child : (p : Ptr) → p < n → Does n (λ answer. answer ≢ pos 0) (p ∷ []) (fork_child os p)
  unfolding fork_child started_by
  Does-fork_child p h = Does-bind (Does-load p h) λ x c.
      Does-bind (Does-system {P = λ answer. answer ≢ pos 0} os.fork parent) λ answer other.
        Does-then (Does-emit (started p answer))
          (Does-then (Does-store p (record x { proc = answer }) c) (Does-pure other))

  Does-run_forked :
      (p : Ptr) (answer : ℤ) → p < n → answer ≢ pos 0 → Does n Any [] (run_forked os p answer)
  unfolding run_forked bytes c_str
  Does-run_forked p (negsuc zero) h other =
      Does-then (Does-log_me error _ _ (plain-Fits (bytes "Failed to launch fork!") (omega arith)))
        (Does-then (Does-log_error (bytes "fork")) (Does-pure tt))
  Does-run_forked p (negsuc (suc k)) h other = Does-run_parent os p h
  Does-run_forked p (pos zero) h other = absurd (other refl)
  Does-run_forked p (pos (suc k)) h other = Does-run_parent os p h

  pub Does-run : (p : Ptr) → p < n → Does n Any (p ∷ []) (run os p)
  unfolding run
  Does-run p h = Does-bind (Does-fork_child p h) (λ answer other. Does-run_forked p answer h other)

  pub Does-run_and_wait : (p : Ptr) → p < n → Does n Any (p ∷ []) (run_and_wait os p)
  unfolding run_and_wait
  Does-run_and_wait p h =
      Does-bind (Does-run p h) (λ ok _. Does-if ok (Does-reap os p false h) (Does-pure tt))
