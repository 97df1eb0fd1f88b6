-- ===== src/Process/Unread.antt =====
-- `kill` and the destructor of src/process.cpp do not read a command that the object has not
-- made.
use renzoku.Prelude.{
  ℤ, ℕ, at_most, ◌≡◌, refl, Bool, true, false, not, ◌&&◌, List, ◌==◌, is_negative,
}
use renzoku.Text.{Text, bytes}
use renzoku.World.{Os, Ptr, Process, Waited, waited, signalled, deleted, free, ◌>>◌}
use renzoku.World.Changes.{
  change, Commutes, Commutes-bind, Commutes-then, Commutes-pure, Commutes-if, Commutes-emit,
  Commutes-system, Commutes-free, Commutes-load,
}
use renzoku.Log.{success}
use renzoku.Log.Unread.{Commutes-log_me, Commutes-log_error}
use renzoku.Process.{
  wait_child, send_signal, report_wait, terminate_fails, report_exit, await_end, kill_live, kill,
  delete_words, delete, sigterm, echild,
}

module _ (f : List Text → List Text) (os : Os) where
  Commutes-send_signal : (pid : ℤ) (signal : ℕ) → Commutes f (send_signal os pid signal)
  unfolding send_signal
  Commutes-send_signal pid signal =
      Commutes-bind f (Commutes-system f (λ s. os.kill s pid signal)) λ answer.
        Commutes-then f (Commutes-emit f (signalled pid signal answer)) (Commutes-pure f answer)

  Commutes-wait_child : (pid : ℤ) (no_hang : Bool) → Commutes f (wait_child os pid no_hang)
  unfolding wait_child
  Commutes-wait_child pid no_hang =
      Commutes-bind f (Commutes-system f (λ s. os.waitpid s pid no_hang))
        λ answer. Commutes-then f (Commutes-emit f (waited pid answer)) (Commutes-pure f answer)

  Commutes-report_wait : (answer : Waited) → Commutes f (report_wait os answer)
  unfolding report_wait
  Commutes-report_wait answer = record {
    apply = λ w.
        (Commutes-if f (is_negative answer.pid && not (os.errno w.system == echild))
            (Commutes-log_error f os (bytes "waitpid")) (Commutes-pure f tt)).apply
          w;
  }

  Commutes-terminate_fails : (pid : ℤ) → Commutes f (terminate_fails os pid)
  unfolding terminate_fails
  Commutes-terminate_fails pid = Commutes-bind f (Commutes-send_signal pid 0) λ exists.
      Commutes-if f exists
        (Commutes-bind f (Commutes-send_signal pid sigterm) λ ok. Commutes-pure f (not ok))
        (Commutes-pure f false)

  Commutes-await_end : (pid : ℤ) → Commutes f (await_end os pid)
  unfolding await_end report_exit
  Commutes-await_end pid = Commutes-bind f (Commutes-wait_child pid false) λ answer.
      Commutes-then f (Commutes-report_wait answer) (
        Commutes-then f
          (Commutes-if f (answer.status == 0) (Commutes-pure f tt)
            (Commutes-log_me f os success _ _))
          (Commutes-pure f true))

  Commutes-kill : (p : Ptr) → Commutes f (kill os p)
  unfolding kill kill_live
  Commutes-kill p =
      Commutes-load f p _ (λ x. refl)
        λ x. Commutes-if f (at_most x.proc 1) (Commutes-pure f true) (
          Commutes-bind f (Commutes-terminate_fails x.proc) λ failed.
            Commutes-if f failed
              (Commutes-then f (Commutes-log_error f os (bytes "kill")) (Commutes-pure f false))
              (Commutes-await_end x.proc))

  release-change :
      (x : Process) (b : Bool) (p : Ptr)
      → x.generated_command ≡ b
      → (delete_words os (change f x) >> free p) ≡ (delete_words os x >> free p)
  unfolding delete_words
  release-change x true p e = rw (delete_words, e) refl
  release-change x false p e = rw (delete_words, e) refl

  Commutes-delete_words : (x : Process) → Commutes f (delete_words os x)
  unfolding delete_words
  Commutes-delete_words x =
      Commutes-if f x.generated_command (Commutes-emit f (deleted x.command)) (Commutes-pure f tt)

  pub Commutes-delete : (p : Ptr) → Commutes f (delete os p)
  unfolding delete
  Commutes-delete p = Commutes-then f (Commutes-kill p) (
      Commutes-load f p _ (λ x. release-change x x.generated_command p refl)
        λ x. Commutes-then f (Commutes-delete_words x) (Commutes-free f p))
