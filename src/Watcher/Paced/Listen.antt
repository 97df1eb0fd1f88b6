-- ===== src/Watcher/Paced/Listen.antt =====
-- `listen` of src/watcher.cpp, with the times of the restarts.
use renzoku.Prelude.{
  ℕ, zero, suc, ℤ, pos, negsuc, at_most, ◌≤◌, ◌<◌, ◌≡◌, refl, Bool, true, false, some, List, [],
  ◌∷◌, ◌++◌, arith, length, All,
}
use renzoku.Text.{Text, bytes, size_mod}
use renzoku.World.{Os, InotifyEvent, Ptr}
use renzoku.World.Does.{Any, Does-system}
use renzoku.World.Starts.{Starts-Does, Starts-pure, Starts-if}
use renzoku.World.Clocked.{IsClock, Clocked-pure, Clocked-if, Clocked-system}
use renzoku.World.Paces.{
  Paces, Paces-bind, Paces-then, Paces-map, Paces-Starts, Paces-pure, Paces-if,
}
use renzoku.Log.{debug}
use renzoku.Log.Returns.{Does-log_me, Does-log_error}
use renzoku.Log.Clocked.{Clocked-log_me, Clocked-log_error}
use renzoku.Process.Starts.{IsParent}
use renzoku.Util.Match.{str_match}
use renzoku.Util.Match.Glob.{str_match_total}
use renzoku.Watcher.{
  Watcher, is_file_change, try_filter, try_filters, handle_event, handle_events, read_events,
  listen_on, listen,
}
use renzoku.Watcher.Rebuild.{IsArmed}
use renzoku.Watcher.Returns.{IsNamed, event-Fits, length-Fits}
use renzoku.Watcher.Paced.{idle, IsPaced-append, PacedFrom, PacedFrom-since, Paces-on_match}

module _ {n : ℕ} {b p : Ptr} {processes : List Ptr} where
  -- A call behind another, from the watcher that the first gives.
  pub PacedFrom-append :
      (x x' x'' : Watcher) {ps qs : List Ptr} {t u v : ℕ}
      → PacedFrom n b processes p x t x' ps u
      → PacedFrom n b processes p x' u x'' qs v
      → PacedFrom n b processes p x t x'' (ps ++ qs) v
  PacedFrom-append x x' x'' (armed, (old, (k, g))) (armed', (old', h)) =
      (armed', (old', IsPaced-append g h))

  pub PacedFrom-unmoved :
      (t : ℕ) (x : Watcher)
      → IsArmed n b p processes x
      → x.timer ≤ t
      → (u : ℕ) → t ≤ u
      → PacedFrom n b processes p x t x [] u
  PacedFrom-unmoved t x v old u le = (v, (omega (arith, old, le), (0, idle le)))

module _ {os : Os} (parent : IsParent os) (now : os.State → ℕ) (c : IsClock os now) {n : ℕ}
    (b p : Ptr) (processes : List Ptr) where
  Paces-try_filter :
      (filter name : Text) (t : ℕ) (x : Watcher)
      → length name < size_mod
      → IsArmed n b p processes x
      → x.timer ≤ t
      → Paces n now t (PacedFrom n b processes p x t) (try_filter os filter name x)
  unfolding try_filter
  Paces-try_filter filter name t x short v old =
      let (hit, e) = str_match_total filter name short in decided hit e
    where
      decided :
          (hit : Bool)
          → str_match filter name ≡ some hit
          → Paces n now t (PacedFrom n b processes p x t) (try_filter os filter name x)
      decided true e = rw (e, try_filter) (Paces-on_match parent now c b p processes name t x v old)
      decided false e = rw (e, try_filter) (Paces-pure n now x (PacedFrom-unmoved t x v old))

  Paces-try_filters :
      (filters : List Text) (name : Text) (t : ℕ) (x : Watcher)
      → length name < size_mod
      → IsArmed n b p processes x
      → x.timer ≤ t
      → Paces n now t (PacedFrom n b processes p x t) (try_filters os filters name x)
  unfolding try_filters
  Paces-try_filters [] name t x short v old = Paces-pure n now x (PacedFrom-unmoved t x v old)
  Paces-try_filters (filter ∷ filters) name t x short v old =
      Paces-bind n now (Paces-try_filter filter name t x short v old) λ x' ps u le g.
        Paces-map n now (λ x'' qs u' _ h. PacedFrom-append x x' x'' g h)
          (Paces-try_filters filters name u x' short g.0 g.1.0)

  Paces-handle_event :
      (event : InotifyEvent) (t : ℕ) (x : Watcher)
      → IsNamed event
      → IsArmed n b p processes x
      → x.timer ≤ t
      → Paces n now t (PacedFrom n b processes p x t) (handle_event os event x)
  unfolding handle_event
  Paces-handle_event event t x short v old =
      Paces-then n now
        (Paces-Starts n now {S = λ _ ps. ps ≡ []}
          (Starts-Does (λ _ _. refl) (Does-log_me debug _ _ (event-Fits event.name event.mask)))
          (Clocked-log_me now c debug _ _))
        λ _ ps u le e.
          Paces-if n now (is_file_change event)
            (λ _.
              Paces-map n now (λ x' qs u' _ g. rw e (PacedFrom-since x x' le g))
                (Paces-try_filters x.config.watch.filters event.name u x short v
                  (omega (arith, old, le))))
            (λ _.
              Paces-pure n now x
                λ u' le'. rw e (PacedFrom-unmoved t x v old u' (omega (arith, le, le'))))

  Paces-handle_events :
      (events : List InotifyEvent) (t : ℕ) (x : Watcher)
      → All IsNamed events
      → IsArmed n b p processes x
      → x.timer ≤ t
      → Paces n now t (PacedFrom n b processes p x t) (handle_events os events x)
  unfolding handle_events
  Paces-handle_events [] t x short v old = Paces-pure n now x (PacedFrom-unmoved t x v old)
  Paces-handle_events (event ∷ events) t x short v old =
      Paces-bind n now (Paces-handle_event event t x short.0 v old) λ x' ps u le g.
        Paces-map n now (λ x'' qs u' _ h. PacedFrom-append x x' x'' g h)
          (Paces-handle_events events u x' short.1 g.0 g.1.0)

  module _ (named : (s : os.State) (fd : ℤ) → All IsNamed (os.read s fd).0.1) where
    Paces-read_events :
        (t : ℕ) (x : Watcher)
        → IsArmed n b p processes x
        → x.timer ≤ t
        → Paces n now t (PacedFrom n b processes p x t) (read_events os x)
    unfolding read_events bytes
    Paces-read_events t x v old =
        Paces-bind n now
          (Paces-Starts n now {S = λ answer ps. All IsNamed answer.1 × (ps ≡ [])}
            (Starts-Does {P = λ answer. All IsNamed answer.1} (λ answer h. (h, refl))
              (Does-system (λ s. os.read s x.inotify) (λ s. named s x.inotify)))
            (Clocked-system now (λ s. os.read s x.inotify) (λ s. c.read s x.inotify)))
          λ answer ps u le (short, e).
            Paces-then n now
              (Paces-Starts n now {S = λ _ qs. qs ≡ []}
                (Starts-if (at_most answer.0 0)
                  (Starts-Does (λ _ _. refl) (Does-log_error (bytes "read"))) (Starts-pure tt refl))
                (Clocked-if now (at_most answer.0 0) (Clocked-log_error now c (bytes "read"))
                  (Clocked-pure now tt)))
              λ _ qs u1 le1 f.
                Paces-then n now
                  (Paces-Starts n now {S = λ _ rs. rs ≡ []}
                    (Starts-Does (λ _ _. refl) (Does-log_me debug _ _ (length-Fits answer.0)))
                    (Clocked-log_me now c debug _ _))
                  λ _ rs u2 le2 g.
                    Paces-map n now
                      (λ x' ss u3 _ h.
                        rw (e, f, g)
                          (PacedFrom-since x x' {c = u2} (omega (arith, le, le1, le2)) h))
                      (Paces-if n now {R = PacedFrom n b processes p x u2} (at_most answer.0 0)
                        (λ _.
                          Paces-pure n now x
                            (PacedFrom-unmoved u2 x v (omega (arith, old, le, le1, le2))))
                        (λ _.
                          Paces-handle_events answer.1 u2 x short v
                            (omega (arith, old, le, le1, le2))))

    Paces-listen_on :
        (selval : ℤ) (t : ℕ) (x : Watcher)
        → IsArmed n b p processes x
        → x.timer ≤ t
        → Paces n now t (PacedFrom n b processes p x t) (listen_on os selval x)
    unfolding listen_on bytes
    Paces-listen_on (pos zero) t x v old = Paces-pure n now x (PacedFrom-unmoved t x v old)
    Paces-listen_on (pos (suc zero)) t x v old = Paces-read_events t x v old
    Paces-listen_on (pos (suc (suc k))) t x v old = Paces-pure n now x (PacedFrom-unmoved t x v old)
    Paces-listen_on (negsuc k) t x v old =
        Paces-then n now
          (Paces-Starts n now {S = λ _ ps. ps ≡ []}
            (Starts-Does (λ _ _. refl) (Does-log_error (bytes "select")))
            (Clocked-log_error now c (bytes "select")))
          λ _ ps u le e.
            Paces-pure n now x
              λ u' le'. rw e (PacedFrom-unmoved t x v old u' (omega (arith, le, le')))

    pub Paces-listen :
        (t : ℕ) (x : Watcher)
        → IsArmed n b p processes x
        → x.timer ≤ t
        → Paces n now t (PacedFrom n b processes p x t) (listen os x)
    unfolding listen
    Paces-listen t x v old =
        Paces-bind n now
          (Paces-Starts n now {S = λ _ ps. ps ≡ []}
            (Starts-Does {P = Any} (λ _ _. refl)
              (Does-system (λ s. os.select s x.inotify) (λ _. tt)))
            (Clocked-system now (λ s. os.select s x.inotify) (λ s. c.select s x.inotify)))
          λ selval ps u le e.
            Paces-map n now (λ x' qs u' _ h. rw e (PacedFrom-since x x' le h))
              (Paces-listen_on selval u x v (omega (arith, old, le)))
