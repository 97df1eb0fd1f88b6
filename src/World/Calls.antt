-- ===== src/World/Calls.antt =====
-- The calls that a run makes, without what it prints.
use renzoku.Prelude.{◌≡◌, refl, ap, Bool, true, false, List, [], ◌∷◌, ◌++◌, if◌then◌else◌}
use renzoku.Text.{Text}
use renzoku.World.{Os, Stream, Event, wrote, M, ◌>>=◌, ◌>>◌, pure, emit, system_call}
use renzoku.World.Emitted.{
  Yields, Yields-bind, Yields-then, Yields-map, Yields-pure, Yields-emit, Yields-system,
}

-- Whether an event is no text that is printed.
abbrev is_call : Event → Bool
is_call (wrote stream t) = false
is_call _ = true

unfoldable pub calls : List Event → List Event
calls [] = []
calls (e ∷ es) = let rest = calls es in if is_call e then e ∷ rest else rest

calls-append : (es fs : List Event) → calls (es ++ fs) ≡ calls es ++ calls fs
unfolding calls
calls-append [] fs = refl
calls-append (e ∷ es) fs = kept (is_call e) (calls-append es fs)
  where
    kept :
        (b : Bool)
        → calls (es ++ fs) ≡ calls es ++ calls fs
        → (if b then e ∷ calls (es ++ fs) else calls (es ++ fs))
          ≡ (if b then e ∷ calls es else calls es) ++ calls fs
    kept true ih = ap (λ rest. e ∷ rest) ih
    kept false ih = ih

-- A call that returns a value in `P` from every world, makes exactly the calls in the list, and
-- leaves the objects as they were.
pub record Makes {os : Os} {A : Type 0} (P : A → Type 0) (ks : List Event) (m : M os A)
    : Type 0 where
  pub yields : Yields (λ a es. P a × (calls es ≡ ks)) m

module _ {os : Os} where
  later :
      {B : Type 0} {Q : B → Type 0} {js ks : List Event} {m : M os B} (es : List Event)
      → calls es ≡ js
      → Makes Q ks m
      → Yields (λ b fs. Q b × (calls (es ++ fs) ≡ js ++ ks)) m
  later es e f = Yields-map (λ b fs (q, g). (q, rw (calls-append es fs, e, g) refl)) f.yields

  pub Makes-bind :
      {A B : Type 0} {P : A → Type 0} {Q : B → Type 0} {js ks : List Event} {m : M os A}
      {k : A → M os B}
      → Makes P js m
      → ((a : A) → P a → Makes Q ks (k a))
      → Makes Q (js ++ ks) (m >>= k)
  Makes-bind t f = record { yields = Yields-bind t.yields λ a es (p, e). later es e (f a p) }

  pub Makes-then :
      {A B : Type 0} {P : A → Type 0} {Q : B → Type 0} {js ks : List Event} {m : M os A}
      {k : M os B}
      → Makes P js m
      → Makes Q ks k
      → Makes Q (js ++ ks) (m >> k)
  Makes-then t f = record { yields = Yields-then t.yields λ a es (p, e). later es e f }

  pub Makes-pure : {A : Type 0} {P : A → Type 0} (a : A) → P a → Makes P [] (pure {os = os} a)
  unfolding calls
  Makes-pure a p = record { yields = Yields-pure a (p, refl) }

  pub Makes-wrote :
      (stream : Stream) (t : Text) → Makes (λ _. Unit {0}) [] (emit {os = os} (wrote stream t))
  unfolding calls
  Makes-wrote stream t = record { yields = Yields-emit _ (tt, refl) }

  pub Makes-call :
      (e : Event) → is_call e ≡ true → Makes (λ _. Unit {0}) (e ∷ []) (emit {os = os} e)
  unfolding calls
  Makes-call e h = record { yields = Yields-emit e (tt, rw h refl) }

  pub Makes-system :
      {A : Type 0} {P : A → Type 0} (f : os.State → A × os.State)
      → ((s : os.State) → P (f s).0)
      → Makes P [] (system_call {os = os} f)
  unfolding calls
  Makes-system f h = record { yields = Yields-system f (λ s. (h s, refl)) }

  pub Makes-if :
      {A : Type 0} {P : A → Type 0} {ks : List Event} {m k : M os A} (b : Bool)
      → Makes P ks m
      → Makes P ks k
      → Makes P ks (if b then m else k)
  Makes-if true t h = t
  Makes-if false t h = h
