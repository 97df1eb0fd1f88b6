-- ===== src/Process/Signals.antt =====
-- The signals that `kill` of src/process.cpp sends.
use renzoku.Prelude.{
  ℤ, at_most, ℕ, ◌<◌, ◌≡◌, refl, Bool, true, false, not, some, List, [], ◌∷◌, ◌++◌, ◌==◌,
  if◌then◌else◌, get_elem?, append-nil, All,
}
use renzoku.Text.{bytes}
use renzoku.World.{
  Os, World, Process, Ptr, Waited, Event, started, waited, signalled, slept, wrote, watched,
  unwatched, deleted, pure,
}
use renzoku.World.Traces.{
  Traces, Emits, load_lem, Traces-map, Traces-bind, Traces-then, Traces-pure, Traces-emit,
  Traces-system, Traces-if, Idle, IsIdle,
}
use renzoku.World.Does.{IsReady, Returns}
use renzoku.World.Emitted.{Emitted, Returns-Emitted}
use renzoku.Process.Starts.{Does-kill}
use renzoku.Log.{success}
use renzoku.Log.Quiet.{Traces-log_me, Traces-log_error}
use renzoku.Process.{
  wait_child, send_signal, report_wait, terminate_fails, await_end, report_exit, kill_live, kill,
  sigterm,
}

-- The target, the signal, and whether the call succeeded.
pub record Signal : Type 0 where
  pub target : ℤ
  pub number : ℕ
  pub sent : Bool

unfoldable pub signals : List Event → List Signal
signals [] = []
signals (started p answer ∷ es) = signals es
signals (waited pid answer ∷ es) = signals es
signals (signalled pid signal answer ∷ es) =
    record { target = pid; number = signal; sent = answer } ∷ signals es
signals (slept n ∷ es) = signals es
signals (wrote s line ∷ es) = signals es
signals (watched path ∷ es) = signals es
signals (unwatched watch ∷ es) = signals es
signals (deleted command ∷ es) = signals es

pub signals-append : (es fs : List Event) → signals (es ++ fs) ≡ signals es ++ signals fs
unfolding signals
signals-append [] fs = refl
signals-append (started p answer ∷ es) fs = signals-append es fs
signals-append (waited pid answer ∷ es) fs = signals-append es fs
signals-append (signalled pid signal answer ∷ es) fs = rw (signals-append es fs)
signals-append (slept n ∷ es) fs = signals-append es fs
signals-append (wrote s line ∷ es) fs = signals-append es fs
signals-append (watched path ∷ es) fs = signals-append es fs
signals-append (unwatched watch ∷ es) fs = signals-append es fs
signals-append (deleted command ∷ es) fs = signals-append es fs

signals-IsIdle : (es : List Event) → All IsIdle es → signals es ≡ []
unfolding signals
signals-IsIdle [] h = refl
signals-IsIdle (started p answer ∷ es) h = absurd h.0
signals-IsIdle (waited pid answer ∷ es) h = absurd h.0
signals-IsIdle (signalled pid signal answer ∷ es) h = absurd h.0
signals-IsIdle (slept n ∷ es) h = signals-IsIdle es h.1
signals-IsIdle (wrote s line ∷ es) h = signals-IsIdle es h.1
signals-IsIdle (watched path ∷ es) h = absurd h.0
signals-IsIdle (unwatched watch ∷ es) h = absurd h.0
signals-IsIdle (deleted command ∷ es) h = absurd h.0

abbrev pub signal_to : ℤ → ℕ → Bool → Signal
signal_to pid number sent = record { target = pid; number = number; sent = sent }

-- What `kill` does to a process id: nothing to 1 and below; a test whether it is there; a SIGTERM
-- to one that is, with the result false where that cannot be sent.
pub data Killed (pid : ℤ) (ok : Bool) (sent : List Signal) : Type 0 where
  spared : at_most pid 1 ≡ true → ok ≡ true → sent ≡ [] → Killed pid ok sent
  gone : at_most pid 1 ≡ false → ok ≡ true → sent ≡ signal_to pid 0 false ∷ [] → Killed pid ok sent
  ended :
      at_most pid 1 ≡ false
      → ok ≡ true
      → sent ≡ signal_to pid 0 true ∷ signal_to pid sigterm true ∷ []
      → Killed pid ok sent
  refused :
      at_most pid 1 ≡ false
      → ok ≡ false
      → sent ≡ signal_to pid 0 true ∷ signal_to pid sigterm false ∷ []
      → Killed pid ok sent

-- The signals of `terminate_fails`, with its result.
data Terminated (pid : ℤ) (failed : Bool) (sent : List Signal) : Type 0 where
  absent : failed ≡ false → sent ≡ signal_to pid 0 false ∷ [] → Terminated pid failed sent
  told :
      failed ≡ false
      → sent ≡ signal_to pid 0 true ∷ signal_to pid sigterm true ∷ []
      → Terminated pid failed sent
  kept :
      failed ≡ true
      → sent ≡ signal_to pid 0 true ∷ signal_to pid sigterm false ∷ []
      → Terminated pid failed sent

module _ (os : Os) where
  Traces-send_signal :
      (pid : ℤ) (signal : ℕ)
      → Traces (λ answer es. es ≡ signalled pid signal answer ∷ []) (send_signal os pid signal)
  unfolding send_signal
  Traces-send_signal pid signal =
      Traces-bind {R = λ answer es. es ≡ []} (Traces-system _ (λ answer. refl)) λ answer es e.
        Traces-then {R = λ _ fs. fs ≡ signalled pid signal answer ∷ []}
          (Traces-emit (signalled pid signal answer) refl)
          (λ _ fs f. Traces-pure answer (rw (e, f)))

  Traces-terminate_fails :
      (pid : ℤ) → Traces (λ failed es. Terminated pid failed (signals es)) (terminate_fails os pid)
  unfolding terminate_fails signals
  Traces-terminate_fails pid = Traces-bind (Traces-send_signal pid 0) λ exists es e.
      Traces-if exists
        (λ there.
          Traces-bind (Traces-send_signal pid sigterm)
            λ ok fs f. Traces-pure (not ok) (sent there ok es fs e f))
        (λ missing. Traces-pure false (absent refl (rw (e, missing))))
    where
      sent :
          {exists : Bool}
          → exists ≡ true
          → (ok : Bool) (es fs : List Event) → es ≡ signalled pid 0 exists ∷ []
          → fs ≡ signalled pid sigterm ok ∷ []
          → Terminated pid (not ok) (signals (es ++ (fs ++ [])))
      sent there true es fs e f = told refl (rw (e, f, there))
      sent there false es fs e f = kept refl (rw (e, f, there))

  Traces-report_wait : (answer : Waited) → Traces Idle (report_wait os answer)
  unfolding report_wait
  Traces-report_wait answer = record {
    apply = λ w.
        (Traces-if {R = Idle} _ (λ _. Traces-log_error os (bytes "waitpid"))
            (λ _. Traces-pure tt tt)).apply
          w;
  }

  Traces-wait_child :
      (pid : ℤ) (no_hang : Bool) → Traces (λ answer es. signals es ≡ []) (wait_child os pid no_hang)
  unfolding wait_child signals
  Traces-wait_child pid no_hang =
      Traces-bind {R = λ answer es. es ≡ []} (Traces-system _ (λ answer. refl)) λ answer es e.
        Traces-then {R = λ _ fs. fs ≡ waited pid answer ∷ []} (Traces-emit (waited pid answer) refl)
          λ _ fs f. Traces-pure answer (rw (e, f))

  Traces-report_exit : (pid : ℤ) (code : ℕ) → Traces Idle (report_exit os pid code)
  unfolding report_exit
  Traces-report_exit pid code =
      Traces-if (code == 0) (λ _. Traces-pure tt tt) (λ _. Traces-log_me os success _ _)

  Traces-await_end :
      (pid : ℤ) → Traces (λ ok es. (ok ≡ true) × (signals es ≡ [])) (await_end os pid)
  unfolding await_end
  Traces-await_end pid = Traces-bind (Traces-wait_child pid false) λ answer es e.
      Traces-then (Traces-report_wait answer) λ _ fs f.
        Traces-then (Traces-report_exit pid answer.status) λ _ gs g. Traces-pure true (
          refl,
          rw (
            signals-append es (fs ++ (gs ++ [])),
            e,
            signals-append fs (gs ++ []),
            signals-IsIdle fs f,
            append-nil gs,
            signals-IsIdle gs g,
          ),
        )

  Traces-kill_live :
      (pid : ℤ)
      → at_most pid 1 ≡ false
      → Traces (λ ok es. Killed pid ok (signals es)) (kill_live os pid)
  unfolding kill_live
  Traces-kill_live pid live = Traces-bind (Traces-terminate_fails pid) λ failed es e.
      Traces-if failed
        (λ bad. Traces-then {R = Idle} (Traces-log_error os (bytes "kill")) λ _ fs f.
          Traces-pure false (
            rw (append-nil fs, signals-append es fs, signals-IsIdle fs f, append-nil (signals es))
              (failing bad e)))
        (λ good.
          Traces-map
            (λ ok fs k.
              rw (signals-append es fs, k.1, append-nil (signals es), k.0) (ending good e))
            (Traces-await_end pid))
    where
      failing :
          {failed : Bool} {sent : List Signal}
          → failed ≡ true
          → Terminated pid failed sent
          → Killed pid false sent
      failing bad (absent f s) = cc
      failing bad (told f s) = cc
      failing bad (kept f s) = refused live refl s

      ending :
          {failed : Bool} {sent : List Signal}
          → failed ≡ false
          → Terminated pid failed sent
          → Killed pid true sent
      ending good (absent f s) = gone live refl s
      ending good (told f s) = ended live refl s
      ending good (kept f s) = cc

  kill_process :
      (x : Process)
      → Traces
          (λ ok es. Killed x.proc ok (signals es))
          (if at_most x.proc 1 then pure {os = os} true else kill_live os x.proc)
  unfolding signals
  kill_process x =
      Traces-if (at_most x.proc 1) (λ low. Traces-pure true (spared low refl refl))
        (λ live. Traces-kill_live x.proc live)

  kill-Emits :
      (p : Ptr) (x : Process) (w : World os)
      → get_elem? w.heap p ≡ some (some x)
      → Emits (λ ok es. Killed x.proc ok (signals es)) w (kill os p w)
  unfolding kill
  kill-Emits p x w e = rw (load_lem p w e, kill) ((kill_process x).apply w)

  -- On an object that is there, where each object has a command, `kill` returns, and has
  -- signalled its own process id and no other: nothing where the id is at most 1, and else signal
  -- 0, then SIGTERM where signal 0 found the process. It has returned false exactly if that
  -- SIGTERM failed.
  pub kill-Killed :
      {n : ℕ} (p : Ptr) (x : Process) (w : World os)
      → p < n
      → IsReady n w
      → get_elem? w.heap p ≡ some (some x)
      → Returns (Emitted (λ ok es. Killed x.proc ok (signals es)) w) (kill os p w)
  kill-Killed p x w h r e = Returns-Emitted (kill-Emits p x w e) ((Does-kill os p h).apply w r)
