-- ===== src/OldWatcher/Killed.antt =====
-- The signals that `killprog` of oldwatcher.c sends.
use renzoku.Prelude.{
  ℤ, ℕ, is_negative, at_most, ◌≡◌, refl, ◌∙◌, Bool, true, false, List, [], ◌∷◌, ◌++◌, ◌==◌,
  append-nil, if◌then◌else◌,
}
use renzoku.Text.{Text, bytes}
use renzoku.World.{Os, Event, World, Waited, waited, signalled, ◌>>◌, pure}
use renzoku.World.Does.{Returns}
use renzoku.World.Emitted.{
  Yielded, Yields, Yields-bind, Yields-then, Yields-pure, Yields-emit, Yields-system, Yields-if,
  Yields-map,
}
use renzoku.Process.{sigterm, send_signal, wait_child}
use renzoku.Process.Signals.{Signal, signals, signals-append, signal_to}
use renzoku.OldWatcher.{perror, report_killed, await_killed, killprog}

-- Nothing for a process id of 1 and below; else SIGTERM to it, with the result 0 exactly where
-- that fails.
pub data OldKilled (pid : ℤ) (result : ℕ) (sent : List Signal) : Type 0 where
  spared : at_most pid 1 ≡ true → result ≡ 1 → sent ≡ [] → OldKilled pid result sent
  ended :
      at_most pid 1 ≡ false
      → result ≡ 1
      → sent ≡ signal_to pid sigterm true ∷ []
      → OldKilled pid result sent
  failed :
      at_most pid 1 ≡ false
      → result ≡ 0
      → sent ≡ signal_to pid sigterm false ∷ []
      → OldKilled pid result sent

-- A call that sends no signal.
abbrev IsQuiet : {A : Type 0} → A → List Event → Type 0
IsQuiet a es = signals es ≡ []

module _ (os : Os) where
  Yields-perror : (message : Text) → Yields IsQuiet (perror os message)
  unfolding perror signals
  Yields-perror message = record { apply = λ w. (Yields-emit {R = IsQuiet} _ refl).apply w }

  quiet-append : (es fs : List Event) → signals es ≡ [] → signals fs ≡ [] → signals (es ++ fs) ≡ []
  quiet-append es fs h k = signals-append es fs ∙ rw (h, k) refl

  Yields-report_killed : (answer : Waited) → Yields IsQuiet (report_killed os answer)
  unfolding report_killed signals
  Yields-report_killed answer =
      Yields-then {R = IsQuiet}
        (Yields-if (is_negative answer.pid) (λ _. Yields-perror (bytes "waitpid"))
          (λ _. Yields-pure tt refl))
        λ _ es h.
          Yields-map (λ _ fs k. quiet-append es fs h k)
            (Yields-if {R = IsQuiet} (answer.status == 0) (λ _. Yields-pure tt refl)
              (λ _. Yields-emit _ refl))

  Yields-wait_child : (pid : ℤ) → Yields IsQuiet (wait_child os pid false)
  unfolding wait_child signals
  Yields-wait_child pid =
      Yields-bind {R = λ _ es. es ≡ []} (Yields-system (λ s. os.waitpid s pid false) (λ s. refl))
        λ answer es e.
          Yields-then {R = λ _ fs. fs ≡ waited pid answer ∷ []} (Yields-emit _ refl)
            λ _ fs f. Yields-pure answer (rw (e, f) refl)

  Yields-send_signal :
      (pid : ℤ) (number : ℕ)
      → Yields (λ ok es. signals es ≡ signal_to pid number ok ∷ []) (send_signal os pid number)
  unfolding send_signal signals
  Yields-send_signal pid number =
      Yields-bind {R = λ _ es. es ≡ []} (Yields-system (λ s. os.kill s pid number) (λ s. refl))
        λ ok es e.
          Yields-then {R = λ _ fs. fs ≡ signalled pid number ok ∷ []} (Yields-emit _ refl)
            λ _ fs f. Yields-pure ok (rw (e, f) refl)

  Yields-await_killed :
      (pid : ℤ) → Yields (λ result es. (result ≡ 1) × (signals es ≡ [])) (await_killed os pid)
  unfolding await_killed
  Yields-await_killed pid = Yields-bind (Yields-wait_child pid) λ answer es h.
      Yields-then (Yields-report_killed answer)
        λ _ fs k. Yields-pure 1 (refl, quiet-append es (fs ++ []) h (rw (append-nil fs) k))

  -- `killprog` returns. It sends SIGTERM to the process id and nothing else, and not even that to
  -- an id of 1 or below; its result is 0 exactly where that signal fails.
  pub killprog-OldKilled :
      (pid : ℤ) (w : World os)
      → Returns
          (λ result w'. Yielded (λ result es. OldKilled pid result (signals es)) w result w')
          (killprog os pid w)
  unfolding killprog signals
  killprog-OldKilled pid = (whole pid).apply
    where
      sent :
          (pid : ℤ) (ok : Bool) (es fs : List Event)
          → signals es ≡ signal_to pid sigterm ok ∷ []
          → signals fs ≡ []
          → signals (es ++ fs) ≡ signal_to pid sigterm ok ∷ []
      sent pid ok es fs h k = signals-append es fs ∙ rw (h, k) refl

      behind :
          (pid : ℤ) (ok : Bool) (es : List Event)
          → at_most pid 1 ≡ false
          → signals es ≡ signal_to pid sigterm ok ∷ []
          → Yields
              (λ result fs. OldKilled pid result (signals (es ++ fs)))
              (if ok then await_killed os pid else (perror os (bytes "kill") >> pure 0))
      behind pid true es live h =
          Yields-map (λ result fs (r, k). ended live r (sent pid true es fs h k))
            (Yields-await_killed pid)
      behind pid false es live h = Yields-then (Yields-perror (bytes "kill")) λ _ fs k.
          Yields-pure 0 (failed live refl (sent pid false es (fs ++ []) h (rw (append-nil fs) k)))

      whole : (pid : ℤ) → Yields (λ result es. OldKilled pid result (signals es)) (killprog os pid)
      whole pid =
          Yields-if (at_most pid 1) (λ e. Yields-pure 1 (spared e refl refl))
            λ e. Yields-bind (Yields-send_signal pid sigterm) λ ok es h. behind pid ok es e h
