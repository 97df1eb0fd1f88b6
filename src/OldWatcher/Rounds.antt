-- ===== src/OldWatcher/Rounds.antt =====
-- The loop of oldwatcher.c until SIGINT, with what stands before and behind it.
use renzoku.Prelude.{
  Option-cases, inl, inr, ℕ, ℤ, at_most, ◌≡◌, ◌≢◌, refl, true, Option, none, some, List, [], ◌∷◌,
}
use renzoku.Text.{Text, bytes}
use renzoku.World.{Os, World, InotifyEvent, watched}
use renzoku.World.Does.{
  Does, Any, Does-bind, Does-then, Does-pure, Does-if, Does-emit, Does-system, started_by,
}
use renzoku.World.Starts.{Starts}
use renzoku.OldWatcher.{
  OldWatcher, Moment, never, before, behind, Arrival, on_change, handle_event, handle_one,
  handle_events, interrupt, round, print_cwd, add_watch,
}
use renzoku.OldWatcher.Starts.{Does-perror, Does-catch_int}

module _ (os : Os) (getpid : os.State → ℤ) {n : ℕ} where
  -- Once `gRunning` is 0, a change starts nothing.
  Does-handle_event :
      (event : InotifyEvent) (x : OldWatcher)
      → Does n (λ y. y ≡ x) [] (handle_event os getpid 0 event x)
  unfolding handle_event on_change started_by
  Does-handle_event event x =
      Does-if _
        (Does-then (Does-emit _) (
          Does-bind (Does-system {P = Any} os.time (λ _. tt))
            λ now _. Does-if _ (Does-pure refl) (Does-pure refl)))
        (Does-pure refl)

  Does-handle_one :
      (moment : Moment) (event : InotifyEvent) (x : OldWatcher)
      → Does n (λ state. state ≡ (0, x)) [] (handle_one os getpid moment 0 event x)
  unfolding handle_one
  Does-handle_one never event x = Does-bind (Does-handle_event event x) λ y e. Does-pure (rw e refl)
  Does-handle_one before event x =
      Does-bind (Does-catch_int os 0)
        λ after f. rw f (Does-bind (Does-handle_event event x) λ y e. Does-pure (rw e refl))
  Does-handle_one behind event x =
      Does-bind (Does-handle_event event x)
        λ y e. Does-bind (Does-catch_int os 0) λ after f. Does-pure (rw (e, f) refl)

  Does-handle_events :
      (moments : List Moment) (events : List InotifyEvent) (x : OldWatcher)
      → Does n (λ state. state ≡ (0, x)) [] (handle_events os getpid moments 0 events x)
  unfolding handle_events
  Does-handle_events [] [] x = Does-pure refl
  Does-handle_events (moment ∷ moments) [] x = Does-pure refl
  Does-handle_events [] (event ∷ events) x =
      Does-bind (Does-handle_one never event x) λ state e. rw e (Does-handle_events [] events x)
  Does-handle_events (moment ∷ moments) (event ∷ events) x =
      Does-bind (Does-handle_one moment event x)
        λ state e. rw e (Does-handle_events moments events x)

  -- A round in which SIGINT arrives while it waits in `read`, and then with any of the events or
  -- none, starts nothing, whatever `read` gives, leaves the state as it is, and clears the flag.
  pub Does-round :
      (a : Arrival) (flag : ℕ) (x : OldWatcher)
      → a.in_read ≡ true
      → Does n (λ state. state ≡ (0, x)) [] (round os getpid a flag x)
  unfolding round interrupt
  Does-round a flag x h = rw h (
      Does-bind (Does-system {P = Any} (λ s. os.read s x.fd) (λ _. tt)) λ answer _.
        Does-bind (Does-catch_int os flag) λ after e. rw e (
          Does-then (Does-if (at_most answer.0 0) (Does-perror os (bytes "read")) (Does-pure tt)) (
            Does-if (at_most answer.0 0) (Does-pure refl)
              (Does-handle_events a.in_events answer.1 x))))

  pub Does-print_cwd :
      ((s : os.State) → os.getcwd s ≢ none) → Does n (λ here. here ≢ none) [] (print_cwd os getpid)
  unfolding print_cwd started_by
  Does-print_cwd stays = record {
    apply = λ w. elim (Option-cases (os.getcwd w.system)) [
      | inl e ↦ absurd (stays w.system e)
      | inr (here, e) ↦ rw (print_cwd, e) ((Does-then (Does-emit _) (Does-pure (λ f. cc))).apply w)
    ];
  }

  pub Does-add_watch :
      (fd : ℤ) (here : Option Text) → here ≢ none → Does n Any [] (add_watch os getpid fd here)
  unfolding add_watch started_by
  Does-add_watch fd none h = absurd (h refl)
  Does-add_watch fd (some here) h =
      Does-bind (Does-system {P = Any} (λ s. os.inotify_add_watch s (fd, here)) (λ _. tt))
        λ wd _. Does-then (Does-emit (watched here)) (Does-pure tt)
