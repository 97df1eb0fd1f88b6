-- ===== src/Process/Clocked.antt =====
-- The methods of src/process.cpp take time only forward.
use renzoku.Prelude.{
  Option, some, none, ℤ, pos, negsuc, ℕ, zero, suc, at_most, is_negative, Bool, true, false, not,
  ◌&&◌, ◌==◌, List, [], ◌∷◌, arith, Bool-cases, inl, inr,
}
use renzoku.Text.{Text, bytes}
use renzoku.World.{Os, Ptr, Waited, waited, signalled, started, slept, exits}
use renzoku.World.Clocked.{
  IsClock, Clocked, Clocked-bind, Clocked-then, Clocked-pure, Clocked-stopped, Clocked-if,
  Clocked-emit, Clocked-system, Clocked-load, Clocked-store,
}
use renzoku.Log.{success, debug, error}
use renzoku.Log.Clocked.{Clocked-log_me, Clocked-log_error}
use renzoku.Process.Arguments.{args_string}
use renzoku.Process.{
  execute, fork_child, wait_child, send_signal, report_wait, name_of, report_failure, reap,
  log_command, run_command, run_child, run_parent, run_forked, run, run_and_wait, terminate_fails,
  report_exit, await_end, kill_live, kill, sigterm, echild,
}

module _ {os : Os} (now : os.State → ℕ) (c : IsClock os now) where
  Clocked-send_signal : (pid : ℤ) (signal : ℕ) → Clocked now (send_signal os pid signal)
  unfolding send_signal
  Clocked-send_signal pid signal =
      Clocked-bind now (Clocked-system now (λ s. os.kill s pid signal) (λ s. c.kill s pid signal))
        λ answer.
          Clocked-then now (Clocked-emit now (signalled pid signal answer))
            (Clocked-pure now answer)

  Clocked-wait_child : (pid : ℤ) (no_hang : Bool) → Clocked now (wait_child os pid no_hang)
  unfolding wait_child
  Clocked-wait_child pid no_hang =
      Clocked-bind now
        (Clocked-system now (λ s. os.waitpid s pid no_hang) (λ s. c.waitpid s pid no_hang))
        λ answer. Clocked-then now (Clocked-emit now (waited pid answer)) (Clocked-pure now answer)

  Clocked-report_wait : (answer : Waited) → Clocked now (report_wait os answer)
  unfolding report_wait
  Clocked-report_wait answer = record {
    apply = λ w.
        (Clocked-if now (is_negative answer.pid && not (os.errno w.system == echild))
            (Clocked-log_error now c (bytes "waitpid")) (Clocked-pure now tt)).apply
          w;
  }

  Clocked-terminate_fails : (pid : ℤ) → Clocked now (terminate_fails os pid)
  unfolding terminate_fails
  Clocked-terminate_fails pid = Clocked-bind now (Clocked-send_signal pid 0) λ exists.
      Clocked-if now exists
        (Clocked-bind now (Clocked-send_signal pid sigterm) λ ok. Clocked-pure now (not ok))
        (Clocked-pure now false)

  Clocked-await_end : (pid : ℤ) → Clocked now (await_end os pid)
  unfolding await_end report_exit
  Clocked-await_end pid = Clocked-bind now (Clocked-wait_child pid false) λ answer.
      Clocked-then now (Clocked-report_wait answer) (
        Clocked-then now
          (Clocked-if now (answer.status == 0) (Clocked-pure now tt)
            (Clocked-log_me now c success _ _))
          (Clocked-pure now true))

  pub Clocked-kill : (p : Ptr) → Clocked now (kill os p)
  unfolding kill kill_live
  Clocked-kill p = Clocked-bind now (Clocked-load now p) λ x.
      Clocked-if now (at_most x.proc 1) (Clocked-pure now true) (
        Clocked-bind now (Clocked-terminate_fails x.proc) λ failed.
          Clocked-if now failed
            (Clocked-then now (Clocked-log_error now c (bytes "kill")) (Clocked-pure now false))
            (Clocked-await_end x.proc))

  Clocked-report_failure : (command : List Text) → Clocked now (report_failure os command)
  unfolding report_failure name_of
  Clocked-report_failure [] = Clocked-stopped now _
  Clocked-report_failure (name ∷ arguments) =
      Clocked-then now (Clocked-log_me now c error _ _) (Clocked-pure now false)

  Clocked-reap : (p : Ptr) (no_hang : Bool) → Clocked now (reap os p no_hang)
  unfolding reap
  Clocked-reap p no_hang = Clocked-bind now (Clocked-load now p) λ x.
      Clocked-bind now (Clocked-wait_child x.proc no_hang) λ answer.
        Clocked-then now (Clocked-report_wait answer)
          (Clocked-if now _ (Clocked-report_failure x.command) (Clocked-pure now true))

  Clocked-execute :
      (in_path : Bool) (command : List Text) → Clocked now (execute os in_path command)
  unfolding execute
  Clocked-execute in_path command = record {
    apply = λ w. elim (Bool-cases (os.exec w.system in_path command)) [
      | inl e ↦ rw (execute, e) (omega arith)
      | inr e ↦ rw (execute, e) (omega arith)
    ];
  }

  Clocked-log_command : (name : Text) (o : Option Text) → Clocked now (log_command os name o)
  unfolding log_command
  Clocked-log_command name none = Clocked-stopped now _
  Clocked-log_command name (some line) = Clocked-log_me now c debug _ _

  Clocked-run_command :
      (in_path : Bool) (command : List Text) → Clocked now (run_command os in_path command)
  unfolding run_command
  Clocked-run_command in_path [] = Clocked-stopped now _
  Clocked-run_command in_path (name ∷ arguments) =
      Clocked-then now (Clocked-log_command name (args_string arguments)) (
        Clocked-then now (Clocked-execute in_path (name ∷ arguments))
          (Clocked-then now (Clocked-log_me now c error _ _) (Clocked-stopped now (exits 1))))

  Clocked-run_child : (p : Ptr) → Clocked now (run_child os p)
  unfolding run_child
  Clocked-run_child p =
      Clocked-then now (Clocked-log_me now c debug _ _)
        (Clocked-bind now (Clocked-load now p) λ x. Clocked-run_command x.search_in_path x.command)

  Clocked-run_parent : (p : Ptr) → Clocked now (run_parent os p)
  unfolding run_parent
  Clocked-run_parent p = Clocked-bind now (Clocked-load now p) λ x.
      Clocked-then now (Clocked-log_me now c debug _ _)
        (Clocked-then now (Clocked-emit now (slept 10)) (Clocked-reap p true))

  Clocked-run_forked : (p : Ptr) (answer : ℤ) → Clocked now (run_forked os p answer)
  unfolding run_forked
  Clocked-run_forked p (negsuc zero) =
      Clocked-then now (Clocked-log_me now c error _ _)
        (Clocked-then now (Clocked-log_error now c (bytes "fork")) (Clocked-pure now false))
  Clocked-run_forked p (negsuc (suc k)) = Clocked-run_parent p
  Clocked-run_forked p (pos zero) = Clocked-run_child p
  Clocked-run_forked p (pos (suc k)) = Clocked-run_parent p

  pub Clocked-run : (p : Ptr) → Clocked now (run os p)
  unfolding run fork_child
  Clocked-run p =
      Clocked-bind now
        (Clocked-bind now (Clocked-load now p) λ x.
          Clocked-bind now (Clocked-system now os.fork c.fork) λ answer.
            Clocked-then now (Clocked-emit now (started p answer)) (
              Clocked-then now (Clocked-store now p (record x { proc = answer }))
                (Clocked-pure now answer)))
        (λ answer. Clocked-run_forked p answer)

  pub Clocked-run_and_wait : (p : Ptr) → Clocked now (run_and_wait os p)
  unfolding run_and_wait
  Clocked-run_and_wait p =
      Clocked-bind now (Clocked-run p)
        λ ok. Clocked-if now ok (Clocked-reap p false) (Clocked-pure now false)
