-- ===== src/World/Emitted.antt =====
-- Calls that return, with the events that they add to the trace.
use renzoku.Prelude.{
  Bool, true, false, if◌then◌else◌, ◌≡◌, ◌∙◌, refl, sym, ◌++◌, List, [], ◌∷◌, append_assoc,
  append-nil,
}
use renzoku.World.{Os, Event, World, Run, M, ◌>>=◌, ◌>>◌, pure, and_then, emit, system_call}
use renzoku.World.Does.{Returns, returns}
use renzoku.World.Traces.{Emits, emits, ends}

-- The run from `w` to `w'`, which gave `a`, has added events in `R`.
pub record Emitted {os : Os} {A : Type 0} (R : A → List Event → Type 0) (w : World os) (a : A)
    (w' : World os) : Type 0 where
  pub events : List Event
  pub grown : w'.trace ≡ w.trace ++ events
  pub holds : R a events

pub Returns-Emitted :
    {os : Os} {A : Type 0} {R : A → List Event → Type 0} {P : A → World os → Type 0} {w : World os}
    {r : Run os A}
    → Emits R w r
    → Returns P r
    → Returns (Emitted R w) r
Returns-Emitted (emits es e h) (returns p) = returns (record { events = es; grown = e; holds = h })
Returns-Emitted ends h = elim h [ ]

-- The same, where the objects are as they were.
abbrev pub Yielded :
    {os : Os} {A : Type 0} → (A → List Event → Type 0) → World os → A → World os → Type 0
Yielded R w a w' = Emitted R w a w' × (w'.heap ≡ w.heap)

-- A call that returns from every world, with a value and events in `R`, and the objects as they
-- were.
pub record Yields {os : Os} {A : Type 0} (R : A → List Event → Type 0) (m : M os A) : Type 0 where
  pub apply : (w : World os) → Returns (Yielded R w) (m w)

-- A pair of runs, one behind the other.
Emitted-later :
    {os : Os} {B : Type 0} (S : B → List Event → Type 0) (w u : World os) (es : List Event)
    (r : Run os B)
    → u.trace ≡ w.trace ++ es
    → u.heap ≡ w.heap
    → Returns (Yielded (λ b fs. S b (es ++ fs)) u) r
    → Returns (Yielded S w) r
Emitted-later S w u es r e same (returns (second, kept)) = returns (
  record {
    events = es ++ second.events;
    grown = second.grown ∙ rw e (append_assoc w.trace es second.events);
    holds = second.holds;
  },
  kept ∙ same,
)

Emitted-bind :
    {os : Os} {A B : Type 0} (R : A → List Event → Type 0) (S : B → List Event → Type 0)
    (w : World os) (r : Run os A) (k : A → M os B)
    → Returns (Yielded R w) r
    → ((a : A) (es : List Event) → R a es → Yields (λ b fs. S b (es ++ fs)) (k a))
    → Returns (Yielded S w) (and_then r k)
Emitted-bind R S w r k (returns {a} {w = u} (first, same)) f =
    Emitted-later S w u first.events (k a u) first.grown same
      ((f a first.events first.holds).apply u)

module _ {os : Os} {A B : Type 0} where
  pub Yields-bind :
      {R : A → List Event → Type 0} {S : B → List Event → Type 0} {m : M os A} {k : A → M os B}
      → Yields R m
      → ((a : A) (es : List Event) → R a es → Yields (λ b fs. S b (es ++ fs)) (k a))
      → Yields S (m >>= k)
  Yields-bind {R} {S} {m} {k} t f = record { apply = λ w. Emitted-bind R S w (m w) k (t.apply w) f }

  pub Yields-then :
      {R : A → List Event → Type 0} {S : B → List Event → Type 0} {m : M os A} {k : M os B}
      → Yields R m
      → ((a : A) (es : List Event) → R a es → Yields (λ b fs. S b (es ++ fs)) k)
      → Yields S (m >> k)
  Yields-then {R} {S} {m} {k} t f = record {
    apply = λ w. Emitted-bind R S w (m w) (λ _. k) (t.apply w) f;
  }

module _ {os : Os} where
  pub Yields-pure :
      {A : Type 0} {R : A → List Event → Type 0} (a : A) → R a [] → Yields R (pure {os = os} a)
  Yields-pure a h = record {
    apply =
        λ w. returns (record { events = []; grown = sym (append-nil w.trace); holds = h }, refl);
  }

  pub Yields-emit :
      {R : Unit {0} → List Event → Type 0} (e : Event) → R tt (e ∷ []) → Yields R (emit {os = os} e)
  Yields-emit e h = record {
    apply = λ w. returns (record { events = e ∷ []; grown = refl; holds = h }, refl);
  }

  pub Yields-system :
      {A : Type 0} {R : A → List Event → Type 0} (f : os.State → A × os.State)
      → ((s : os.State) → R (f s).0 [])
      → Yields R (system_call {os = os} f)
  unfolding system_call
  Yields-system f h = record {
    apply = λ w.
        returns
          (record { events = []; grown = sym (append-nil w.trace); holds = h w.system }, refl);
  }

map-Emitted :
    {os : Os} {A : Type 0} {R S : A → List Event → Type 0} {w : World os} {r : Run os A}
    → ((a : A) (es : List Event) → R a es → S a es)
    → Returns (Yielded R w) r
    → Returns (Yielded S w) r
map-Emitted f (returns (t, same)) =
    returns (record { events = t.events; grown = t.grown; holds = f _ t.events t.holds }, same)

pub Yields-map :
    {os : Os} {A : Type 0} {R S : A → List Event → Type 0} {m : M os A}
    → ((a : A) (es : List Event) → R a es → S a es)
    → Yields R m
    → Yields S m
Yields-map f t = record { apply = λ w. map-Emitted f (t.apply w) }

pub Yields-if :
    {os : Os} {A : Type 0} {R : A → List Event → Type 0} {m k : M os A} (b : Bool)
    → (b ≡ true → Yields R m)
    → (b ≡ false → Yields R k)
    → Yields R (if b then m else k)
Yields-if true t f = t refl
Yields-if false t f = f refl
