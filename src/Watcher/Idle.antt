-- ===== src/Watcher/Idle.antt =====
-- `listen` of src/watcher.cpp on events that are no change of a file, or that no filter matches.
use Prim.Native.Nat.{bit_and}
use renzoku.Prelude.{
  ℕ, ◌≡◌, ◌≢◌, ◌<◌, length, arith, refl, ◌⊎◌, inl, inr, Bool, true, false, some, List, [], ◌∷◌, All,
  All-append,
}
use renzoku.Text.{Text, size_mod}
use renzoku.World.{Os, World, InotifyEvent, Event}
use renzoku.World.Traces.{
  Traces, Traces-map, Traces-bind, Traces-then, Traces-pure, Traces-if, IsIdle,
}
use renzoku.Log.{debug}
use renzoku.Log.Quiet.{Traces-log_me}
use renzoku.Util.Match.{str_match}
use renzoku.Util.Match.Glob.{Glob, str_match_iff, str_match_total}
use renzoku.World.{Ptr}
use renzoku.World.Does.{IsReady, Returns}
use renzoku.World.Emitted.{Emitted, Returns-Emitted}
use renzoku.Process.Starts.{IsParent}
use renzoku.Watcher.Rebuild.{IsArmed}
use renzoku.Watcher.Returns.{IsNamed, Starts-handle_events}
use renzoku.Watcher.{Watcher, is_file_change, try_filter, try_filters, handle_event, handle_events}

-- The watcher is as it was, and the program has printed at most.
abbrev pub Unmoved : Watcher → Watcher → List Event → Type 0
Unmoved x x' es = (x' ≡ x) × All IsIdle es

-- The event has no name, is no change (IN_MODIFY is 0x2), or is of a directory (IN_ISDIR is
-- 0x40000000); or no filter describes its name.
abbrev pub IsIgnored : List Text → InotifyEvent → Type 0
IsIgnored filters event =
    (event.len ≡ 0)
    ⊎ ((bit_and event.mask 0x2 ≡ 0)
        ⊎ ((bit_and event.mask 0x40000000 ≢ 0) ⊎ All (λ filter. ¬ Glob filter event.name) filters))

-- The event is not handled, or no filter matches.
Missed : List Text → InotifyEvent → Type 0
Missed filters event =
    (is_file_change event ≡ false)
    ⊎ All (λ filter. str_match filter event.name ≡ some false) filters

miss :
    (filter name : Text)
    → length name < size_mod
    → ¬ Glob filter name
    → str_match filter name ≡ some false
miss filter name short other = answered (str_match_total filter name short)
  where
    answered : ((b : Bool) × (str_match filter name ≡ some b)) → str_match filter name ≡ some false
    answered (true, e) = absurd (other ((str_match_iff filter name short).0 e))
    answered (false, e) = e

misses :
    (filters : List Text) (name : Text)
    → length name < size_mod
    → All (λ filter. ¬ Glob filter name) filters
    → All (λ filter. str_match filter name ≡ some false) filters
misses [] name short h = tt
misses (filter ∷ filters) name short (other, h) =
    (miss filter name short other, misses filters name short h)

ignored-Missed :
    (filters : List Text) (event : InotifyEvent)
    → length event.name < size_mod
    → IsIgnored filters event
    → Missed filters event
unfolding is_file_change Missed
ignored-Missed filters event short (inl e) = inl (rw e refl)
ignored-Missed filters event short (inr (inl e)) = inl (rw e (ground arith))
ignored-Missed filters event short (inr (inr (inl e))) = inl (ground arith)
ignored-Missed filters event short (inr (inr (inr h))) = inr (misses filters event.name short h)

module _ (os : Os) where
  Traces-try_filter :
      (filter name : Text) (x : Watcher)
      → str_match filter name ≡ some false
      → Traces (Unmoved x) (try_filter os filter name x)
  unfolding try_filter
  Traces-try_filter filter name x e = rw (e, try_filter) (Traces-pure x (refl, tt))

  Traces-try_filters :
      (filters : List Text) (name : Text) (x : Watcher)
      → All (λ filter. str_match filter name ≡ some false) filters
      → Traces (Unmoved x) (try_filters os filters name x)
  unfolding try_filters
  Traces-try_filters [] name x h = Traces-pure x (refl, tt)
  Traces-try_filters (filter ∷ filters) name x (e, h) =
      Traces-bind (Traces-try_filter filter name x e) λ x' es (f, idle). rw f (
        Traces-map (λ x'' fs (g, more). (g, All-append IsIdle es fs idle more))
          (Traces-try_filters filters name x h))

  Traces-handle_event :
      (event : InotifyEvent) (x : Watcher)
      → Missed x.config.watch.filters event
      → Traces (Unmoved x) (handle_event os event x)
  unfolding handle_event Missed
  Traces-handle_event event x h = Traces-then (Traces-log_me os debug _ _) λ _ es idle.
      Traces-map (λ x' fs (f, more). (f, All-append IsIdle es fs idle more))
        (Traces-if (is_file_change event)
          (λ changed. Traces-try_filters x.config.watch.filters event.name x (unless changed h))
          (λ _. Traces-pure x (refl, tt)))
    where
      unless :
          is_file_change event ≡ true
          → Missed x.config.watch.filters event
          → All (λ filter. str_match filter event.name ≡ some false) x.config.watch.filters
      unless changed (inl e) = absurd (cc)
      unless changed (inr h) = h

  Traces-handle_events :
      (events : List InotifyEvent) (x : Watcher)
      → All IsNamed events
      → All (IsIgnored x.config.watch.filters) events
      → Traces (Unmoved x) (handle_events os events x)
  unfolding handle_events
  Traces-handle_events [] x short h = Traces-pure x (refl, tt)
  Traces-handle_events (event ∷ events) x (short, shorts) (e, h) =
      Traces-bind
        (Traces-handle_event event x (ignored-Missed x.config.watch.filters event short e))
        λ x' es (f, idle). rw f (
          Traces-map (λ x'' fs (g, more). (g, All-append IsIdle es fs idle more))
            (Traces-handle_events events x shorts h))

  -- A batch of events that are all ignored changes nothing: the loop over it in `listen` returns,
  -- the watcher is the one it was given and the program has at most printed; no process was
  -- started, signalled or waited for. An event is ignored where it has no name, is no change of a
  -- file, or is one whose name no filter describes. The other conditions are those of
  -- `listen-Rebuilds`.
  pub handle_events-Unmoved :
      {n : ℕ} (parent : IsParent os) (b p : Ptr) (processes : List Ptr) (events : List InotifyEvent)
      (x : Watcher) (w : World os)
      → All IsNamed events
      → IsArmed n b p processes x
      → IsReady n w
      → All (IsIgnored x.config.watch.filters) events
      → Returns (Emitted (Unmoved x) w) (handle_events os events x w)
  handle_events-Unmoved parent b p processes events x w short v r h =
      Returns-Emitted ((Traces-handle_events events x short h).apply w)
        ((Starts-handle_events os parent b p processes events x short v).apply w r)
