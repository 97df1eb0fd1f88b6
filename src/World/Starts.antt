-- ===== src/World/Starts.antt =====
-- Calls that return and start some of the objects that a predicate on the list of them allows.
use renzoku.Prelude.{
  ℕ, ◌≡◌, refl, ◌∙◌, Bool, true, false, List, [], ◌++◌, if◌then◌else◌, append_assoc,
}
use renzoku.World.{Os, Ptr, World, Run, M, ◌>>=◌, ◌>>◌, pure, and_then}
use renzoku.World.Does.{started_by, IsReady, After, Returns, returns, Does, Does-pure}

-- The change from `w` to `w'`, where the objects that are started in between are in `S`.
pub record Started {os : Os} (n : ℕ) (w : World os) (S : List Ptr → Type 0) (w' : World os)
    : Type 0 where
  pub ready : IsReady n w'
  pub starts : List Ptr
  pub grown : started_by w'.trace ≡ started_by w.trace ++ starts
  pub fits : S starts

pub record Starts {os : Os} {A : Type 0} (n : ℕ) (S : A → List Ptr → Type 0) (m : M os A)
    : Type 0 where
  pub apply : (w : World os) → IsReady n w → Returns (λ a w'. Started n w (S a) w') (m w)

Started-later :
    {os : Os} {n : ℕ} {A : Type 0} {S : A → List Ptr → Type 0} {w u : World os} {r : Run os A}
    (ps : List Ptr)
    → started_by u.trace ≡ started_by w.trace ++ ps
    → Returns (λ a v. Started n u (λ qs. S a (ps ++ qs)) v) r
    → Returns (λ a v. Started n w (S a) v) r
Started-later {w = w} ps e (returns second) = returns (record {
  ready = second.ready;
  starts = ps ++ second.starts;
  grown = second.grown ∙ rw e (append_assoc (started_by w.trace) ps second.starts);
  fits = second.fits;
})

Started-bind :
    {os : Os} {n : ℕ} {A B : Type 0} (R : A → List Ptr → Type 0) (S : B → List Ptr → Type 0)
    (w : World os) (r : Run os A) (k : A → M os B)
    → Returns (λ a w'. Started n w (R a) w') r
    → ((a : A) (ps : List Ptr) → R a ps → Starts n (λ b qs. S b (ps ++ qs)) (k a))
    → Returns (λ b w'. Started n w (S b) w') (and_then r k)
Started-bind R S w r k (returns {a} {w = u} first) f =
    Started-later {S = S} first.starts first.grown
      ((f a first.starts first.fits).apply u first.ready)

module _ {os : Os} {n : ℕ} {A B : Type 0} where
  pub Starts-bind :
      {R : A → List Ptr → Type 0} {S : B → List Ptr → Type 0} {m : M os A} {k : A → M os B}
      → Starts n R m
      → ((a : A) (ps : List Ptr) → R a ps → Starts n (λ b qs. S b (ps ++ qs)) (k a))
      → Starts n S (m >>= k)
  Starts-bind {R} {S} {m} {k} t f = record {
    apply = λ w r. Started-bind R S w (m w) k (t.apply w r) f;
  }

  pub Starts-then :
      {R : A → List Ptr → Type 0} {S : B → List Ptr → Type 0} {m : M os A} {k : M os B}
      → Starts n R m
      → ((a : A) (ps : List Ptr) → R a ps → Starts n (λ b qs. S b (ps ++ qs)) k)
      → Starts n S (m >> k)
  Starts-then {R} {S} {m} {k} t f = record {
    apply = λ w r. Started-bind R S w (m w) (λ _. k) (t.apply w r) f;
  }

Returns-Started :
    {os : Os} {n : ℕ} {A : Type 0} {R S : A → List Ptr → Type 0} {w : World os} {r : Run os A}
    → ((a : A) (ps : List Ptr) → R a ps → S a ps)
    → Returns (λ a w'. Started n w (R a) w') r
    → Returns (λ a w'. Started n w (S a) w') r
Returns-Started f (returns s) =
    returns
      (record { ready = s.ready; starts = s.starts; grown = s.grown; fits = f _ s.starts s.fits })

pub Starts-map :
    {os : Os} {n : ℕ} {A : Type 0} {R S : A → List Ptr → Type 0} {m : M os A}
    → ((a : A) (ps : List Ptr) → R a ps → S a ps)
    → Starts n R m
    → Starts n S m
Starts-map f t = record { apply = λ w r. Returns-Started f (t.apply w r) }

Started-Does :
    {os : Os} {n : ℕ} {A : Type 0} {P : A → Type 0} {S : A → List Ptr → Type 0} {ps : List Ptr}
    {w : World os} {r : Run os A}
    → ((a : A) → P a → S a ps)
    → Returns (λ a w'. P a × After n w ps w') r
    → Returns (λ a w'. Started n w (S a) w') r
Started-Does {ps = ps} f (returns (p, after)) =
    returns (record { ready = after.ready; starts = ps; grown = after.starts; fits = f _ p })

module _ {os : Os} {n : ℕ} {A : Type 0} where
  pub Starts-Does :
      {P : A → Type 0} {S : A → List Ptr → Type 0} {ps : List Ptr} {m : M os A}
      → ((a : A) → P a → S a ps)
      → Does n P ps m
      → Starts n S m
  Starts-Does f d = record { apply = λ w r. Started-Does f (d.apply w r) }

  pub Starts-pure : {S : A → List Ptr → Type 0} (a : A) → S a [] → Starts n S (pure {os = os} a)
  Starts-pure a h = Starts-Does {P = λ b. b ≡ a} (λ b e. rw e h) (Does-pure refl)

  pub Starts-if :
      {S : A → List Ptr → Type 0} {m k : M os A} (b : Bool)
      → Starts n S m
      → Starts n S k
      → Starts n S (if b then m else k)
  Starts-if true t f = t
  Starts-if false t f = f
