-- ===== src/Watcher/Returns.antt =====
-- `listen` of src/watcher.cpp: whether it returns, and what it starts.
use renzoku.Prelude.{
  ℤ, pos, negsuc, at_most, ℕ, zero, suc, ◌<◌, ◌≡◌, refl, Bool, true, false, some, List, [], ◌∷◌,
  ◌++◌, length, append_assoc, All,
}
use renzoku.Text.{Text, bytes, c_str, size_mod}
use renzoku.World.{Os, World, InotifyEvent, Ptr}
use renzoku.World.Does.{Any, Returns, Does-system}
use renzoku.World.Starts.{
  Starts, Starts-map, Starts-bind, Starts-then, Starts-Does, Starts-pure, Starts-if,
}
use renzoku.Log.{debug}
use renzoku.Log.Printf.{string, signed, unsigned, to_base, to_decimal, printf}
use renzoku.Log.Message.{printf-NoPercent}
use renzoku.Log.Returns.{Fits, Does-log_me, Does-log_error}
use renzoku.Util.Match.{str_match}
use renzoku.Util.Match.Glob.{str_match_total}
use renzoku.Process.Starts.{IsParent}
use renzoku.Watcher.{
  Watcher, is_file_change, try_filter, try_filters, handle_event, handle_events, read_events,
  listen_on, listen,
}
use renzoku.Watcher.Rebuild.{rest, Rebuilds-append, IsArmed, Rebuilt, Starts-on_match}

pub event-Fits :
    (name : Text) (mask : ℕ) → Fits (bytes "File %s -> 0x%x!") (string name ∷ unsigned mask ∷ [])
unfolding bytes c_str printf
event-Fits name mask = (
  bytes "File " ++ (c_str name ++ (bytes " -> 0x" ++ (to_base 16 mask ++ bytes "!"))),
  λ rest h. rw (printf-NoPercent rest h) (simp append_assoc),
)

pub length-Fits : (n : ℤ) → Fits (bytes "Event buffer size: %d") (signed n ∷ [])
unfolding bytes c_str printf
length-Fits n =
    (bytes "Event buffer size: " ++ to_decimal n, λ rest h. rw (printf-NoPercent rest h))

-- The kernel's bound on the name of an event, far above the 255 bytes of a file name.
abbrev pub IsNamed : InotifyEvent → Type 0
IsNamed event = length event.name < size_mod

module _ (os : Os) (parent : IsParent os) {n : ℕ} (b p : Ptr) (processes : List Ptr) where
  Starts-try_filter :
      (filter name : Text) (x : Watcher)
      → length name < size_mod
      → IsArmed n b p processes x
      → Starts n (Rebuilt n b p processes) (try_filter os filter name x)
  unfolding try_filter
  Starts-try_filter filter name x short v =
      let (hit, e) = str_match_total filter name short in decided hit e
    where
      decided :
          (hit : Bool)
          → str_match filter name ≡ some hit
          → Starts n (Rebuilt n b p processes) (try_filter os filter name x)
      decided true e = rw (e, try_filter) (Starts-on_match os parent b p processes name x v)
      decided false e = rw (e, try_filter) (Starts-pure x (v, rest))

  Starts-try_filters :
      (filters : List Text) (name : Text) (x : Watcher)
      → length name < size_mod
      → IsArmed n b p processes x
      → Starts n (Rebuilt n b p processes) (try_filters os filters name x)
  unfolding try_filters
  Starts-try_filters [] name x short v = Starts-pure x (v, rest)
  Starts-try_filters (filter ∷ filters) name x short v =
      Starts-bind (Starts-try_filter filter name x short v) λ x' ps (v', g).
        Starts-map (λ x'' qs (v'', h). (v'', Rebuilds-append ps qs g h))
          (Starts-try_filters filters name x' short v')

  Starts-handle_event :
      (event : InotifyEvent) (x : Watcher)
      → IsNamed event
      → IsArmed n b p processes x
      → Starts n (Rebuilt n b p processes) (handle_event os event x)
  unfolding handle_event
  Starts-handle_event event x short v =
      Starts-then {R = λ _ ps. ps ≡ []}
        (Starts-Does (λ _ _. refl) (Does-log_me debug _ _ (event-Fits event.name event.mask)))
        λ _ ps e.
          Starts-if (is_file_change event)
            (Starts-map (λ x' qs (v', g). (v', rw e g))
              (Starts-try_filters x.config.watch.filters event.name x short v))
            (Starts-pure x (v, rw e rest))

  pub Starts-handle_events :
      (events : List InotifyEvent) (x : Watcher)
      → All IsNamed events
      → IsArmed n b p processes x
      → Starts n (Rebuilt n b p processes) (handle_events os events x)
  unfolding handle_events
  Starts-handle_events [] x short v = Starts-pure x (v, rest)
  Starts-handle_events (event ∷ events) x short v =
      Starts-bind (Starts-handle_event event x short.0 v) λ x' ps (v', g).
        Starts-map (λ x'' qs (v'', h). (v'', Rebuilds-append ps qs g h))
          (Starts-handle_events events x' short.1 v')

  module _ (named : (s : os.State) (fd : ℤ) → All IsNamed (os.read s fd).0.1) where
    Starts-read_events :
        (x : Watcher)
        → IsArmed n b p processes x
        → Starts n (Rebuilt n b p processes) (read_events os x)
    unfolding read_events bytes
    Starts-read_events x v =
        Starts-bind {R = λ answer ps. All IsNamed answer.1 × (ps ≡ [])}
          (Starts-Does {P = λ answer. All IsNamed answer.1} (λ answer h. (h, refl))
            (Does-system (λ s. os.read s x.inotify) (λ s. named s x.inotify)))
          λ answer ps (short, e).
            Starts-then {R = λ _ qs. qs ≡ []}
              (Starts-if (at_most answer.0 0)
                (Starts-Does (λ _ _. refl) (Does-log_error (bytes "read"))) (Starts-pure tt refl))
              λ _ qs f.
                Starts-then {R = λ _ rs. rs ≡ []}
                  (Starts-Does (λ _ _. refl) (Does-log_me debug _ _ (length-Fits answer.0)))
                  λ _ rs g.
                    Starts-map (λ x' ss (v', h). (v', rw (e, f, g) h))
                      (Starts-if (at_most answer.0 0) (Starts-pure x (v, rest))
                        (Starts-handle_events answer.1 x short v))

    Starts-listen_on :
        (selval : ℤ) (x : Watcher)
        → IsArmed n b p processes x
        → Starts n (Rebuilt n b p processes) (listen_on os selval x)
    unfolding listen_on bytes
    Starts-listen_on (pos zero) x v = Starts-pure x (v, rest)
    Starts-listen_on (pos (suc zero)) x v = Starts-read_events x v
    Starts-listen_on (pos (suc (suc k))) x v = Starts-pure x (v, rest)
    Starts-listen_on (negsuc k) x v =
        Starts-then {R = λ _ ps. ps ≡ []}
          (Starts-Does (λ _ _. refl) (Does-log_error (bytes "select")))
          λ _ ps e. Starts-pure x (v, rw e rest)

    pub Starts-listen :
        (x : Watcher) → IsArmed n b p processes x → Starts n (Rebuilt n b p processes) (listen os x)
    unfolding listen
    Starts-listen x v =
        Starts-bind {R = λ _ ps. ps ≡ []}
          (Starts-Does {P = Any} (λ _ _. refl) (Does-system (λ s. os.select s x.inotify) (λ _. tt)))
          λ selval ps e. Starts-map (λ x' qs (v', h). (v', rw e h)) (Starts-listen_on selval x v)
