-- ===== src/Process/Again.antt =====
-- `kill` of src/process.cpp called again on the same object.
use renzoku.Prelude.{ℕ, ℤ, ◌≡◌, ◌<◌, ◌∙◌, some, Bool, List, [], ◌++◌, get_elem?, append_assoc}
use renzoku.World.{Os, World, Process, Ptr, Run, ◌>>◌, and_then}
use renzoku.World.Does.{IsReady, After, Returns, returns}
use renzoku.World.Emitted.{Emitted}
use renzoku.World.Ends.{Ends, returned, raised, IsSame}
use renzoku.Process.{kill}
use renzoku.Process.Starts.{Does-kill}
use renzoku.Process.Leaves.{kill-IsSame}
use renzoku.Process.Signals.{Signal, Killed, signals, signals-append, kill-Killed}

pub Returns-Ends :
    {os : Os} {A : Type 0} {P Q : A → World os → Type 0} {r : Run os A}
    → Returns P r
    → Ends Q ⊥ r
    → Returns (λ a w. P a w × Q a w) r
Returns-Ends (returns p) (returned q) = returns (p, q)
Returns-Ends h (raised e) = absurd e

pub Returns-both :
    {os : Os} {A : Type 0} {P Q : A → World os → Type 0} {r : Run os A}
    → Returns P r
    → Returns Q r
    → Returns (λ a w. P a w × Q a w) r
Returns-both (returns p) (returns q) = returns (p, q)

-- Two calls, one after the other, each as `Killed` says, on the same process id.
pub record IsKilledAgain (pid : ℤ) (again : Bool) (sent : List Signal) : Type 0 where
  pub first_sent : List Signal
  pub second_sent : List Signal
  pub ok : Bool
  pub both : sent ≡ first_sent ++ second_sent
  pub first : Killed pid ok first_sent
  pub second : Killed pid again second_sent

module _ (os : Os) where
  -- What `kill` does, with the heap as it was.
  kill_whole :
      {n : ℕ} (p : Ptr) (x : Process) (w : World os)
      → p < n
      → IsReady n w
      → get_elem? w.heap p ≡ some (some x)
      → Returns
          (λ ok w'.
            Emitted (λ ok es. Killed x.proc ok (signals es)) w ok w'
            × (IsReady n w' × (w'.heap ≡ w.heap)))
          (kill os p w)
  kill_whole {n} p x w h r e = Returns-weaken (
      Returns-both (kill-Killed os p x w h r e)
        (Returns-Ends ((Does-kill os p h).apply w r) (kill-IsSame os p x w e)))
    where
      Returns-weaken :
          {r : Run os Bool}
          → Returns
              (λ ok w'.
                Emitted (λ ok es. Killed x.proc ok (signals es)) w ok w'
                × ((Unit {0} × After n w [] w') × (Unit {0} × IsSame w w')))
              r
          → Returns
              (λ ok w'.
                Emitted (λ ok es. Killed x.proc ok (signals es)) w ok w'
                × (IsReady n w' × (w'.heap ≡ w.heap)))
              r
      Returns-weaken (returns (k, (after, same))) = returns (k, (after.1.ready, same.1.heap))

  second_kill :
      {n : ℕ} (p : Ptr) (x : Process) (w u : World os) (ok : Bool)
      → p < n
      → Emitted (λ ok es. Killed x.proc ok (signals es)) w ok u
      → IsReady n u
      → get_elem? u.heap p ≡ some (some x)
      → Returns (Emitted (λ again es. IsKilledAgain x.proc again (signals es)) w) (kill os p u)
  second_kill p x w u ok h first r e = joined (kill-Killed os p x u h r e)
    where
      joined :
          {r : Run os Bool}
          → Returns (Emitted (λ ok es. Killed x.proc ok (signals es)) u) r
          → Returns (Emitted (λ again es. IsKilledAgain x.proc again (signals es)) w) r
      joined (returns second) = returns (record {
        events = first.events ++ second.events;
        grown = second.grown ∙ rw first.grown (append_assoc w.trace first.events second.events);
        holds = record {
          first_sent = signals first.events;
          second_sent = signals second.events;
          ok = ok;
          both = signals-append first.events second.events;
          first = first.holds;
          second = second.holds;
        };
      })

  -- `kill` does not forget the process id. Two calls on the same object, where each object has a
  -- command, return, and each treats the same id as `kill-Killed` says, whatever the first has
  -- sent and waited for.
  pub kill-IsKilledAgain :
      {n : ℕ} (p : Ptr) (x : Process) (w : World os)
      → p < n
      → IsReady n w
      → get_elem? w.heap p ≡ some (some x)
      → Returns
          (Emitted (λ again es. IsKilledAgain x.proc again (signals es)) w)
          ((kill os p >> kill os p) w)
  kill-IsKilledAgain {n} p x w h r e = continued (kill_whole p x w h r e)
    where
      continued :
          {run : Run os Bool}
          → Returns
              (λ ok w'.
                Emitted (λ ok es. Killed x.proc ok (signals es)) w ok w'
                × (IsReady n w' × (w'.heap ≡ w.heap)))
              run
          → Returns
              (Emitted (λ again es. IsKilledAgain x.proc again (signals es)) w)
              (and_then run (λ _. kill os p))
      continued (returns {a} {w = u} (k, (ready, same))) =
          second_kill p x w u a h k ready (rw same e)
