-- ===== src/World/Traces.antt =====
-- Calls seen by the events that they add to the trace. `Traces R m` says that wherever `m`
-- returns a value `a`, it has added events `es` with `R a es`.
use renzoku.Prelude.{
  set, ◌≡◌, refl, sym, ◌∙◌, Bool, true, false, Option, none, some, List, [], ◌∷◌, ◌++◌,
  if◌then◌else◌, length, get_elem?, append_assoc, append-nil, All,
}
use renzoku.World.{
  Os, Process, Ptr, Event, slept, wrote, World, Run, done, stopped, M, ◌>>=◌, ◌>>◌, pure, and_then,
  emit, load, store, new, free, deref, system_call, Stop,
}

pub data Emits {os : Os} {A : Type 0} (R : A → List Event → Type 0) (w : World os)
    : Run os A → Type 0 where
  emits :
      {a : A} {w' : World os} (es : List Event)
      → w'.trace ≡ w.trace ++ es
      → R a es
      → Emits R w (done a w')
  ends : {s : Stop} {w' : World os} → Emits R w (stopped s w')

pub record Traces {os : Os} {A : Type 0} (R : A → List Event → Type 0) (m : M os A) : Type 0 where
  pub apply : (w : World os) → Emits R w (m w)

-- A pair of runs, one behind the other.
joined :
    {os : Os} {B : Type 0} (S : B → List Event → Type 0) (w u : World os) (es : List Event)
    (r : Run os B)
    → u.trace ≡ w.trace ++ es
    → Emits (λ b fs. S b (es ++ fs)) u r
    → Emits S w r
joined S w u es r e (emits fs f s) = emits (es ++ fs) (f ∙ rw e (append_assoc w.trace es fs)) s
joined S w u es r e ends = ends

module _ {os : Os} {A B : Type 0} where
  bind-Emits :
      (R : A → List Event → Type 0) (S : B → List Event → Type 0) (w : World os) (r : Run os A)
      (k : A → M os B)
      → Emits R w r
      → ((a : A) (es : List Event) → R a es → Traces (λ b fs. S b (es ++ fs)) (k a))
      → Emits S w (and_then r k)
  bind-Emits R S w r k (emits {a} {w' = u} es e h) f =
      joined S w u es (k a u) e ((f a es h).apply u)
  bind-Emits R S w r k ends f = ends

  pub Traces-bind :
      {R : A → List Event → Type 0} {S : B → List Event → Type 0} {m : M os A} {k : A → M os B}
      → Traces R m
      → ((a : A) (es : List Event) → R a es → Traces (λ b fs. S b (es ++ fs)) (k a))
      → Traces S (m >>= k)
  Traces-bind {R} {S} {m} {k} t f = record { apply = λ w. bind-Emits R S w (m w) k (t.apply w) f }

  pub Traces-then :
      {R : A → List Event → Type 0} {S : B → List Event → Type 0} {m : M os A} {k : M os B}
      → Traces R m
      → ((a : A) (es : List Event) → R a es → Traces (λ b fs. S b (es ++ fs)) k)
      → Traces S (m >> k)
  Traces-then {R} {S} {m} {k} t f = record {
    apply = λ w. bind-Emits R S w (m w) (λ _. k) (t.apply w) f;
  }

module _ {os : Os} where
  pub Traces-pure :
      {A : Type 0} {R : A → List Event → Type 0} (a : A) → R a [] → Traces R (pure {os = os} a)
  Traces-pure a h = record { apply = λ w. emits [] (sym (append-nil w.trace)) h }

  pub Traces-emit :
      {R : Unit {0} → List Event → Type 0} (e : Event) → R tt (e ∷ []) → Traces R (emit {os = os} e)
  Traces-emit e h = record { apply = λ w. emits (e ∷ []) refl h }

  pub Traces-system :
      {A : Type 0} {R : A → List Event → Type 0} (f : os.State → A × os.State)
      → ((s : os.State) → R (f s).0 [])
      → Traces R (system_call {os = os} f)
  unfolding system_call
  Traces-system f h = record { apply = λ w. emits [] (sym (append-nil w.trace)) (h w.system) }

  pub Traces-store :
      {R : Unit {0} → List Event → Type 0} (p : Ptr) (x : Process)
      → R tt []
      → Traces R (store {os = os} p x)
  unfolding store
  Traces-store p x h = record { apply = λ w. emits [] (sym (append-nil w.trace)) h }

  pub Traces-new :
      {R : Ptr → List Event → Type 0} (x : Process)
      → ((p : Ptr) → R p [])
      → Traces R (new {os = os} x)
  unfolding new
  Traces-new x h = record { apply = λ w. emits [] (sym (append-nil w.trace)) (h (length w.heap)) }

  pub load_lem :
      (p : Ptr) (w : World os) {x : Process}
      → get_elem? w.heap p ≡ some (some x)
      → load p w ≡ done x w
  unfolding load
  load_lem p w e = rw (e, load)

  load-Emits :
      (R : Process → List Event → Type 0) (p : Ptr) (w : World os) (o : Option (Option Process))
      → ((x : Process) → R x [])
      → get_elem? w.heap p ≡ o
      → Emits R w (load p w)
  unfolding load
  load-Emits R p w none h e = rw (e, load) ends
  load-Emits R p w (some none) h e = rw (e, load) ends
  load-Emits R p w (some (some x)) h e = rw (e, load) (emits [] (sym (append-nil w.trace)) (h x))

  pub Traces-load :
      {R : Process → List Event → Type 0} (p : Ptr)
      → ((x : Process) → R x [])
      → Traces R (load {os = os} p)
  Traces-load {R} p h = record { apply = λ w. load-Emits R p w (get_elem? w.heap p) h refl }

  pub Traces-deref :
      {R : Ptr → List Event → Type 0} (o : Option Ptr)
      → ((p : Ptr) → R p [])
      → Traces R (deref {os = os} o)
  Traces-deref none h = record { apply = λ w. ends }
  Traces-deref (some p) h = Traces-pure p (h p)

  pub Traces-if :
      {A : Type 0} {R : A → List Event → Type 0} {m k : M os A} (b : Bool)
      → (b ≡ true → Traces R m)
      → (b ≡ false → Traces R k)
      → Traces R (if b then m else k)
  Traces-if true t f = t refl
  Traces-if false t f = f refl

map-Emits :
    {os : Os} {A : Type 0} {R S : A → List Event → Type 0} {w : World os} {r : Run os A}
    → ((a : A) (es : List Event) → R a es → S a es)
    → Emits R w r
    → Emits S w r
map-Emits f (emits es e h) = emits es e (f _ es h)
map-Emits f ends = ends

pub Traces-map :
    {os : Os} {A : Type 0} {R S : A → List Event → Type 0} {m : M os A}
    → ((a : A) (es : List Event) → R a es → S a es)
    → Traces R m
    → Traces S m
Traces-map f t = record { apply = λ w. map-Emits f (t.apply w) }

-- An event that only prints or waits for a time.
abbrev pub IsIdle : Event → Type 0
IsIdle (slept n) = Unit
IsIdle (wrote s line) = Unit
IsIdle _ = ⊥

abbrev pub Idle : {A : Type 0} → A → List Event → Type 0
Idle a es = All IsIdle es

pub new_lem :
    {os : Os} (x : Process) (w : World os)
    → new x w ≡ done (length w.heap) (record w { heap = w.heap ++ (some x ∷ []) })
unfolding new
new_lem x w = refl

pub free_lem :
    {os : Os} (p : Ptr) (w : World os) → free p w ≡ done tt (record w { heap = set w.heap p none })
unfolding free
free_lem p w = refl
