-- ===== src/World/Changes.antt =====
-- Calls that do not read the commands that the objects on the heap have not made: where each of
-- these is changed by a function `f`, they do the same.
use renzoku.Prelude.{
  ℕ, zero, suc, ◌≡◌, refl, ap, ◌∙◌, Bool, true, false, if◌then◌else◌, Option, none, some, List, [],
  ◌∷◌, map, get_elem?, set,
}
use renzoku.Text.{Text}
use renzoku.World.{
  Os, Process, Ptr, Event, World, Run, done, stopped, M, ◌>>=◌, ◌>>◌, pure, and_then, emit, load,
  free, system_call,
}

module _ (f : List Text → List Text) where
  abbrev pub change : Process → Process
  change x = record x { command = if x.generated_command then x.command else f x.command }

  abbrev pub change_slot : Option Process → Option Process
  change_slot none = none
  change_slot (some x) = some (change x)

  abbrev pub changed : {os : Os} → World os → World os
  changed w = record w { heap = map change_slot w.heap }

  abbrev pub changed_run : {os : Os} {A : Type 0} → Run os A → Run os A
  changed_run (done a w) = done a (changed w)
  changed_run (stopped s w) = stopped s (changed w)

  -- The call commutes with the change.
  pub record Commutes {os : Os} {A : Type 0} (m : M os A) : Type 0 where
    pub apply : (w : World os) → m (changed w) ≡ changed_run (m w)

  set-change :
      (heap : List (Option Process)) (p : ℕ)
      → set (map change_slot heap) p none ≡ map change_slot (set heap p none)
  set-change [] p = refl
  set-change (x ∷ heap) zero = refl
  set-change (x ∷ heap) (suc p) = ap (λ h. change_slot x ∷ h) (set-change heap p)

  abbrev over : Option (Option Process) → Option (Option Process)
  over none = none
  over (some o) = some (change_slot o)

  get_elem?-change :
      (heap : List (Option Process)) (p : ℕ)
      → get_elem? (map change_slot heap) p ≡ over (get_elem? heap p)
  get_elem?-change [] p = refl
  get_elem?-change (x ∷ heap) zero = refl
  get_elem?-change (x ∷ heap) (suc p) = get_elem?-change heap p

  module _ {os : Os} where
    bind_changed :
        {A B : Type 0} (r : Run os A) (k : A → M os B)
        → ((a : A) → Commutes (k a))
        → and_then (changed_run r) k ≡ changed_run (and_then r k)
    bind_changed (done a w) k h = (h a).apply w
    bind_changed (stopped s w) k h = refl

    pub Commutes-bind :
        {A B : Type 0} {m : M os A} {k : A → M os B}
        → Commutes m
        → ((a : A) → Commutes (k a))
        → Commutes (m >>= k)
    Commutes-bind {m} {k} t h = record {
      apply = λ w. ap (λ r. and_then r k) (t.apply w) ∙ bind_changed (m w) k h;
    }

    pub Commutes-then :
        {A B : Type 0} {m : M os A} {k : M os B} → Commutes m → Commutes k → Commutes (m >> k)
    Commutes-then {m} {k} t h = record {
      apply = λ w. ap (λ r. and_then r (λ _. k)) (t.apply w) ∙ bind_changed (m w) (λ _. k) (λ _. h);
    }

    pub Commutes-pure : {A : Type 0} (a : A) → Commutes (pure {os = os} a)
    Commutes-pure a = record { apply = λ w. refl }

    pub Commutes-if :
        {A : Type 0} {m k : M os A} (b : Bool)
        → Commutes m
        → Commutes k
        → Commutes (if b then m else k)
    Commutes-if true t h = t
    Commutes-if false t h = h

    pub Commutes-emit : (e : Event) → Commutes (emit {os = os} e)
    Commutes-emit e = record { apply = λ w. refl }

    pub Commutes-system :
        {A : Type 0} (g : os.State → A × os.State) → Commutes (system_call {os = os} g)
    unfolding system_call
    Commutes-system g = record { apply = λ w. refl }

    pub Commutes-free : (p : Ptr) → Commutes (free {os = os} p)
    unfolding free
    Commutes-free p = record {
      apply = λ w. ap (λ heap. done tt (record w { heap = heap })) (set-change w.heap p);
    }

    -- An object is read, and its command is not used.
    pub Commutes-load :
        {A : Type 0} (p : Ptr) (k : Process → M os A)
        → ((x : Process) → k (change x) ≡ k x)
        → ((x : Process) → Commutes (k x))
        → Commutes (load {os = os} p >>= k)
    unfolding load
    Commutes-load p k same h = record { apply = λ w. found w (get_elem? w.heap p) refl }
      where
        found :
            (w : World os) (o : Option (Option Process))
            → get_elem? w.heap p ≡ o
            → (load {os = os} p >>= k) (changed w) ≡ changed_run ((load {os = os} p >>= k) w)
        found w none e = rw (load, get_elem?-change w.heap p, e) refl
        found w (some none) e = rw (load, get_elem?-change w.heap p, e) refl
        found w (some (some x)) e =
            rw (load, get_elem?-change w.heap p, e)
              (ap (λ m. m (changed w)) (same x) ∙ (h x).apply w)
