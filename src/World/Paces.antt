-- ===== src/World/Paces.antt =====
-- Calls that return and start objects, as in `Starts`, where the clock does not go back.
use renzoku.Prelude.{
  ℕ, ◌≤◌, ◌≡◌, refl, sym, ◌∙◌, arith, Bool, true, false, List, [], ◌++◌, if◌then◌else◌, append-nil,
  append_assoc,
}
use renzoku.World.{Os, Ptr, World, Run, M, ◌>>=◌, ◌>>◌, pure, and_then, system_call}
use renzoku.World.Does.{started_by, IsReady, Returns, returns}
use renzoku.World.Starts.{Started, Starts}
use renzoku.World.Clocked.{IsClock, Clocked, final}

module _ {os : Os} (n : ℕ) (now : os.State → ℕ) where
  -- From a world whose clock is at `t` or later, the call returns a value and starts objects that
  -- are, with the clock at its end, in `R`.
  pub record Paces {A : Type 0} (t : ℕ) (R : A → List Ptr → ℕ → Type 0) (m : M os A) : Type 0 where
    pub apply :
        (w : World os)
        → IsReady n w
        → t ≤ now w.system
        → Returns
            (λ a w'. Started n w (λ ps. (t ≤ now w'.system) × R a ps (now w'.system)) w')
            (m w)

  later :
      {B : Type 0} (S : B → List Ptr → ℕ → Type 0) {w u : World os} {t t' : ℕ} {r : Run os B}
      (ps : List Ptr)
      → t ≤ t'
      → started_by u.trace ≡ started_by w.trace ++ ps
      → Returns (λ b v. Started n u (λ qs. (t' ≤ now v.system) × S b (ps ++ qs) (now v.system)) v) r
      → Returns (λ b v. Started n w (λ qs. (t ≤ now v.system) × S b qs (now v.system)) v) r
  later S {w = w} ps le e (returns second) =
      let up = second.fits.0 in
      returns (record {
        ready = second.ready;
        starts = ps ++ second.starts;
        grown = second.grown ∙ rw e (append_assoc (started_by w.trace) ps second.starts);
        fits = (omega (arith, le, up), second.fits.1);
      })

  module _ {A B : Type 0} where
    bind_run :
        (R : A → List Ptr → ℕ → Type 0) (S : B → List Ptr → ℕ → Type 0) {w : World os} {t : ℕ}
        {r : Run os A} (k : A → M os B)
        → Returns (λ a u. Started n w (λ ps. (t ≤ now u.system) × R a ps (now u.system)) u) r
        → ((a : A) (ps : List Ptr) (u : ℕ)
            → t ≤ u
            → R a ps u
            → Paces u (λ b qs v. S b (ps ++ qs) v) (k a))
        → Returns
            (λ b v. Started n w (λ qs. (t ≤ now v.system) × S b qs (now v.system)) v)
            (and_then r k)
    bind_run R S k (returns {a} {w = u} first) f = later S first.starts first.fits.0 first.grown (
        (f a first.starts (now u.system) first.fits.0 first.fits.1).apply u first.ready
          (omega arith))

    pub Paces-bind :
        {R : A → List Ptr → ℕ → Type 0} {S : B → List Ptr → ℕ → Type 0} {t : ℕ} {m : M os A}
        {k : A → M os B}
        → Paces t R m
        → ((a : A) (ps : List Ptr) (u : ℕ)
            → t ≤ u
            → R a ps u
            → Paces u (λ b qs v. S b (ps ++ qs) v) (k a))
        → Paces t S (m >>= k)
    Paces-bind {R} {S} {k} p f = record { apply = λ w r le. bind_run R S k (p.apply w r le) f }

    pub Paces-then :
        {R : A → List Ptr → ℕ → Type 0} {S : B → List Ptr → ℕ → Type 0} {t : ℕ} {m : M os A}
        {k : M os B}
        → Paces t R m
        → ((a : A) (ps : List Ptr) (u : ℕ)
            → t ≤ u
            → R a ps u
            → Paces u (λ b qs v. S b (ps ++ qs) v) k)
        → Paces t S (m >> k)
    Paces-then {R} {S} {k} p f = record {
      apply = λ w r le. bind_run R S (λ _. k) (p.apply w r le) f;
    }

  module _ {A : Type 0} {R S : A → List Ptr → ℕ → Type 0} where
    map_run :
        {w : World os} {t : ℕ} {r : Run os A}
        → ((a : A) (ps : List Ptr) (u : ℕ) → t ≤ u → R a ps u → S a ps u)
        → Returns (λ a u. Started n w (λ ps. (t ≤ now u.system) × R a ps (now u.system)) u) r
        → Returns (λ a u. Started n w (λ ps. (t ≤ now u.system) × S a ps (now u.system)) u) r
    map_run f (returns {w = u} s) = returns (record {
      ready = s.ready;
      starts = s.starts;
      grown = s.grown;
      fits = (s.fits.0, f _ s.starts (now u.system) s.fits.0 s.fits.1);
    })

    pub Paces-map :
        {t : ℕ} {m : M os A}
        → ((a : A) (ps : List Ptr) (u : ℕ) → t ≤ u → R a ps u → S a ps u)
        → Paces t R m
        → Paces t S m
    Paces-map f p = record { apply = λ w r le. map_run f (p.apply w r le) }

  module _ {A : Type 0} where
    clocked_run :
        {S : A → List Ptr → Type 0} {w : World os} {t : ℕ} (r : Run os A)
        → t ≤ now w.system
        → now w.system ≤ now (final r).system
        → Returns (λ a u. Started n w (S a) u) r
        → Returns (λ a u. Started n w (λ ps. (t ≤ now u.system) × S a ps) u) r
    clocked_run r le up (returns s) = returns (record {
      ready = s.ready;
      starts = s.starts;
      grown = s.grown;
      fits = (omega (arith, le, up), s.fits);
    })

    pub Paces-Starts :
        {S : A → List Ptr → Type 0} {t : ℕ} {m : M os A}
        → Starts n S m
        → Clocked now m
        → Paces t (λ a ps u. S a ps) m
    Paces-Starts {m} s c = record {
      apply = λ w r le. clocked_run (m w) le (c.apply w) (s.apply w r);
    }

    pub Paces-pure :
        {R : A → List Ptr → ℕ → Type 0} {t : ℕ} (a : A)
        → ((u : ℕ) → t ≤ u → R a [] u)
        → Paces t R (pure {os = os} a)
    Paces-pure a f = record {
      apply = λ w r le. returns (record {
        ready = r;
        starts = [];
        grown = sym (append-nil (started_by w.trace));
        fits = (le, f (now w.system) le);
      });
    }

    pub Paces-if :
        {R : A → List Ptr → ℕ → Type 0} {t : ℕ} {m k : M os A} (b : Bool)
        → (b ≡ true → Paces t R m)
        → (b ≡ false → Paces t R k)
        → Paces t R (if b then m else k)
    Paces-if true p q = p refl
    Paces-if false p q = q refl

  -- `time` answers a time between the two ends of the call.
  pub Paces-time :
      {t : ℕ}
      → IsClock os now
      → Paces t (λ a ps u. (ps ≡ []) × ((t ≤ a) × (a ≤ u))) (system_call os.time)
  unfolding system_call
  Paces-time c = record {
    apply = λ w r le.
        let read = c.reads w.system in
        let up = c.time w.system in
        returns (record {
          ready = record { size = r.size; callable = r.callable };
          starts = [];
          grown = sym (append-nil (started_by w.trace));
          fits =
              (omega (arith, le, up), (refl, (omega (arith, le, read), omega (arith, read, up))));
        });
  }
