-- ===== src/World/Ends.antt =====
-- Calls that return or throw, seen from the world that they start in.
use renzoku.Prelude.{◌≡◌, refl, ◌∙◌, Bool, true, false, [], ◌∷◌, append-nil, if◌then◌else◌}
use renzoku.Text.{Text}
use renzoku.World.{
  Os, Event, World, Run, done, stopped, throws, throw, M, ◌>>=◌, ◌>>◌, pure, and_then, emit,
  system_call,
}
use renzoku.World.Does.{started_by, started_by-append}

-- A call that returns, with a value and a world in `Q`; or that throws, for the reason `E`.
pub data Ends {os : Os} {A : Type 0} (Q : A → World os → Type 0) (E : Type 0)
    : Run os A → Type 0 where
  returned : {a : A} {w : World os} → Q a w → Ends Q E (done a w)
  raised : {message : Text} {w : World os} → E → Ends Q E (stopped (throws message) w)

pub Ends-bind :
    {os : Os} {A B : Type 0} {Q : A → World os → Type 0} {S : B → World os → Type 0} {E : Type 0}
    {r : Run os A} {k : A → M os B}
    → Ends Q E r
    → ((a : A) (w : World os) → Q a w → Ends S E (k a w))
    → Ends S E (and_then r k)
Ends-bind (returned q) f = f _ _ q
Ends-bind (raised e) f = raised e

pub Ends-map :
    {os : Os} {A : Type 0} {Q S : A → World os → Type 0} {E F : Type 0} {r : Run os A}
    → ((a : A) (w : World os) → Q a w → S a w)
    → (E → F)
    → Ends Q E r
    → Ends S F r
Ends-map f g (returned q) = returned (f _ _ q)
Ends-map f g (raised e) = raised (g e)

-- The objects are the same in both worlds, and nothing was started in between.
pub record IsSame {os : Os} (w w' : World os) : Type 0 where
  pub heap : w'.heap ≡ w.heap
  pub starts : started_by w'.trace ≡ started_by w.trace

pub IsSame-refl : {os : Os} (w : World os) → IsSame w w
IsSame-refl w = record { heap = refl; starts = refl }

pub IsSame-trans : {os : Os} {w u v : World os} → IsSame w u → IsSame u v → IsSame w v
IsSame-trans a b = record { heap = b.heap ∙ a.heap; starts = b.starts ∙ a.starts }

-- A call that returns a value in `P` and leaves the objects as they were, from every world.
pub record Leaves {os : Os} {A : Type 0} (P : A → Type 0) (E : Type 0) (m : M os A) : Type 0 where
  pub apply : (w : World os) → Ends (λ a w'. P a × IsSame w w') E (m w)

module _ {os : Os} {E : Type 0} where
  pub Leaves-pure : {A : Type 0} {P : A → Type 0} (a : A) → P a → Leaves P E (pure {os = os} a)
  Leaves-pure a p = record { apply = λ w. returned (p, IsSame-refl w) }

  pub Leaves-map :
      {A : Type 0} {P Q : A → Type 0} {m : M os A}
      → ((a : A) → P a → Q a)
      → Leaves P E m
      → Leaves Q E m
  Leaves-map f t = record { apply = λ w. Ends-map (λ a w' (p, s). (f a p, s)) (λ e. e) (t.apply w) }

  pub Leaves-bind :
      {A B : Type 0} {P : A → Type 0} {Q : B → Type 0} {m : M os A} {k : A → M os B}
      → Leaves P E m
      → ((a : A) → P a → Leaves Q E (k a))
      → Leaves Q E (m >>= k)
  Leaves-bind t f = record {
    apply = λ w.
        Ends-bind (t.apply w)
          λ a u (p, s). Ends-map (λ b v (q, s'). (q, IsSame-trans s s')) (λ e. e) ((f a p).apply u);
  }

  pub Leaves-then :
      {A B : Type 0} {P : A → Type 0} {Q : B → Type 0} {m : M os A} {k : M os B}
      → Leaves P E m
      → Leaves Q E k
      → Leaves Q E (m >> k)
  Leaves-then t f = record {
    apply = λ w.
        Ends-bind (t.apply w)
          λ a u (p, s). Ends-map (λ b v (q, s'). (q, IsSame-trans s s')) (λ e. e) (f.apply u);
  }

  pub Leaves-if :
      {A : Type 0} {P : A → Type 0} {m k : M os A} (b : Bool)
      → (b ≡ true → Leaves P E m)
      → (b ≡ false → Leaves P E k)
      → Leaves P E (if b then m else k)
  Leaves-if true t f = t refl
  Leaves-if false t f = f refl

  pub Leaves-throw :
      {A : Type 0} {P : A → Type 0} (message : Text)
      → E
      → Leaves P E (throw {os = os} {A = A} message)
  Leaves-throw message e = record { apply = λ w. raised e }

  -- An event that starts nothing.
  pub Leaves-emit :
      (e : Event) → started_by (e ∷ []) ≡ [] → Leaves (λ _. Unit {0}) E (emit {os = os} e)
  Leaves-emit e h = record {
    apply = λ w. returned (
      tt,
      record {
        heap = refl;
        starts = started_by-append w.trace (e ∷ []) ∙ rw h (append-nil (started_by w.trace));
      },
    );
  }

  pub Leaves-system :
      {A : Type 0} (f : os.State → A × os.State)
      → Leaves (λ _. Unit {0}) E (system_call {os = os} f)
  unfolding system_call
  Leaves-system f = record { apply = λ w. returned (tt, record { heap = refl; starts = refl }) }
