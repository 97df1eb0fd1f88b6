-- ===== src/Process/Leaves.antt =====
-- `kill` of src/process.cpp leaves the objects of the program as they are.
use renzoku.Prelude.{ℤ, ℕ, ◌≡◌, refl, some, Bool, true, false, get_elem?}
use renzoku.Text.{bytes}
use renzoku.World.{Os, World, Process, Ptr, Waited, waited, signalled}
use renzoku.World.Does.{started_by}
use renzoku.World.Traces.{load_lem}
use renzoku.World.Ends.{
  Ends, IsSame, Leaves, Leaves-pure, Leaves-bind, Leaves-then, Leaves-if, Leaves-emit,
  Leaves-system,
}
use renzoku.Log.{success}
use renzoku.Log.Leaves.{Leaves-log_me, Leaves-log_error}
use renzoku.Log.Returns.{exit-Fits}
use renzoku.Process.{
  wait_child, send_signal, report_wait, terminate_fails, await_end, report_exit, kill_live, kill,
  sigterm,
}

module _ (os : Os) {E : Type 0} where
  Leaves-wait_child :
      (pid : ℤ) (no_hang : Bool) → Leaves (λ _. Unit {0}) E (wait_child os pid no_hang)
  unfolding wait_child started_by
  Leaves-wait_child pid no_hang =
      Leaves-bind (Leaves-system (λ s. os.waitpid s pid no_hang))
        λ answer _. Leaves-then (Leaves-emit (waited pid answer) refl) (Leaves-pure answer tt)

  Leaves-send_signal : (pid : ℤ) (signal : ℕ) → Leaves (λ _. Unit {0}) E (send_signal os pid signal)
  unfolding send_signal started_by
  Leaves-send_signal pid signal =
      Leaves-bind (Leaves-system (λ s. os.kill s pid signal)) λ answer _.
        Leaves-then (Leaves-emit (signalled pid signal answer) refl) (Leaves-pure answer tt)

  Leaves-report_wait : (answer : Waited) → Leaves (λ _. Unit {0}) E (report_wait os answer)
  unfolding report_wait
  Leaves-report_wait answer = record {
    apply = λ w.
        (Leaves-if _ (λ _. Leaves-log_error (bytes "waitpid")) (λ _. Leaves-pure tt tt)).apply w;
  }

  Leaves-terminate_fails : (pid : ℤ) → Leaves (λ _. Unit {0}) E (terminate_fails os pid)
  unfolding terminate_fails
  Leaves-terminate_fails pid = Leaves-bind (Leaves-send_signal pid 0) λ exists _.
      Leaves-if exists
        (λ _. Leaves-bind (Leaves-send_signal pid sigterm) (λ ok _. Leaves-pure _ tt))
        (λ _. Leaves-pure false tt)

  Leaves-await_end : (pid : ℤ) → Leaves (λ _. Unit {0}) E (await_end os pid)
  unfolding await_end report_exit
  Leaves-await_end pid = Leaves-bind (Leaves-wait_child pid false) λ answer _.
      Leaves-then (Leaves-report_wait answer) (
        Leaves-then
          (Leaves-if _ (λ _. Leaves-pure tt tt)
            (λ _. Leaves-log_me success _ _ (exit-Fits pid answer.status)))
          (Leaves-pure true tt))

  Leaves-kill_live : (pid : ℤ) → Leaves (λ _. Unit {0}) E (kill_live os pid)
  unfolding kill_live
  Leaves-kill_live pid = Leaves-bind (Leaves-terminate_fails pid) λ failed _.
      Leaves-if failed (λ _. Leaves-then (Leaves-log_error (bytes "kill")) (Leaves-pure false tt))
        (λ _. Leaves-await_end pid)

  pub kill-IsSame :
      (p : Ptr) (x : Process) (w : World os)
      → get_elem? w.heap p ≡ some (some x)
      → Ends (λ ok w'. Unit {0} × IsSame w w') E (kill os p w)
  unfolding kill
  kill-IsSame p x w e =
      rw (load_lem p w e, kill)
        ((Leaves-if _ (λ _. Leaves-pure true tt) (λ _. Leaves-kill_live x.proc)).apply w)
