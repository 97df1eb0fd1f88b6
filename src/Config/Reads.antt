-- ===== src/Config/Reads.antt =====
-- Calls that read a value as a plan does: they return the value that is described, or throw where
-- there is none, and leave the objects of the program as they are.
use renzoku.Prelude.{◌≡◌, refl, subst, Bool, true, false, Option, none, some, if◌then◌else◌}
use renzoku.Text.{Text}
use renzoku.World.{Os, World, Run, M, ◌>>=◌, ◌>>◌, pure, and_then, throw}
use renzoku.World.Ends.{
  Ends, returned, raised, Ends-bind, Ends-map, IsSame, IsSame-trans, Leaves, Leaves-pure,
}
use renzoku.Util.Command.{◌>>=◌ as ◌>>?◌}

abbrev pub Reads : {os : Os} {A : Type 0} → Option A → M os A → Type 0
Reads o m = Leaves (λ a. o ≡ some a) (o ≡ none) m

module _ {os : Os} where
  Reads-bind_run :
      {A B : Type 0} (o : Option A) (f : A → Option B) (w : World os) (r : Run os A)
      (k : A → M os B)
      → Ends (λ a w'. (o ≡ some a) × IsSame w w') (o ≡ none) r
      → ((a : A) → o ≡ some a → Reads (f a) (k a))
      → Ends (λ b w'. ((o >>? f) ≡ some b) × IsSame w w') ((o >>? f) ≡ none) (and_then r k)
  Reads-bind_run o f w r k (returned {a} {w = u} (e, s)) g =
      rw e (Ends-map (λ b v (h, t). (h, IsSame-trans s t)) (λ h. h) ((g a e).apply u))
  Reads-bind_run o f w r k (raised e) g = raised (rw e)

  pub Reads-bind :
      {A B : Type 0} {o : Option A} {f : A → Option B} {m : M os A} {k : A → M os B}
      → Reads o m
      → ((a : A) → o ≡ some a → Reads (f a) (k a))
      → Reads (o >>? f) (m >>= k)
  Reads-bind {o} {f} {m} {k} t g = record {
    apply = λ w. Reads-bind_run o f w (m w) k (t.apply w) g;
  }

  -- What comes first returns and is not read.
  pub Reads-then :
      {A B : Type 0} {P : A → Type 0} {o : Option B} {m : M os A} {k : M os B}
      → Leaves P (o ≡ none) m
      → Reads o k
      → Reads o (m >> k)
  Reads-then t g = record {
    apply = λ w.
        Ends-bind (t.apply w)
          λ a u (p, s). Ends-map (λ b v (h, s'). (h, IsSame-trans s s')) (λ e. e) (g.apply u);
  }

  pub Reads-pure : {A : Type 0} (a : A) → Reads (some a) (pure {os = os} a)
  Reads-pure a = Leaves-pure a refl

  pub Reads-as : {A : Type 0} {o p : Option A} {m : M os A} → o ≡ p → Reads o m → Reads p m
  Reads-as {m} e t = subst (λ o. Reads o m) e t

  pub Reads-throw : {A : Type 0} (message : Text) → Reads {os = os} {A = A} none (throw message)
  Reads-throw message = record { apply = λ w. raised refl }

  pub Reads-if :
      {A : Type 0} {o p : Option A} {m k : M os A} (b : Bool)
      → (b ≡ true → Reads o m)
      → (b ≡ false → Reads p k)
      → Reads (if b then o else p) (if b then m else k)
  Reads-if true t f = t refl
  Reads-if false t f = f refl
