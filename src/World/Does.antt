-- ===== src/World/Does.antt =====
-- Calls that return, seen from the process that called `fork`: the objects that they start, in
-- order. `Does n P ps m` says that `m`, where the heap holds `n` processes, all with a command,
-- returns a value in `P`, keeps the heap so, and has started exactly the objects `ps`.
use renzoku.Prelude.{
  ℕ, zero, suc, ◌<◌, ◌≡◌, ◌≢◌, refl, ap, sym, ◌∙◌, Bool, true, false, Option, none, some, List, [],
  ◌∷◌, ◌++◌, arith, if◌then◌else◌, length, get_elem?, append_assoc, append-nil, All, set,
  length-set,
}
use renzoku.World.{
  Os, Process, Ptr, Event, started, waited, signalled, slept, wrote, watched, unwatched, deleted,
  World, Run, done, M, ◌>>=◌, ◌>>◌, pure, and_then, emit, load, store, system_call,
}

-- The objects that have been started, oldest first.
unfoldable pub started_by : List Event → List Ptr
started_by [] = []
started_by (started p answer ∷ es) = p ∷ started_by es
started_by (waited pid answer ∷ es) = started_by es
started_by (signalled pid signal answer ∷ es) = started_by es
started_by (slept n ∷ es) = started_by es
started_by (wrote s line ∷ es) = started_by es
started_by (watched path ∷ es) = started_by es
started_by (unwatched watch ∷ es) = started_by es
started_by (deleted command ∷ es) = started_by es

pub started_by-append :
    (es fs : List Event) → started_by (es ++ fs) ≡ started_by es ++ started_by fs
unfolding started_by
started_by-append [] fs = refl
started_by-append (started p answer ∷ es) fs = ap (λ ps. p ∷ ps) (started_by-append es fs)
started_by-append (waited pid answer ∷ es) fs = started_by-append es fs
started_by-append (signalled pid signal answer ∷ es) fs = started_by-append es fs
started_by-append (slept n ∷ es) fs = started_by-append es fs
started_by-append (wrote s line ∷ es) fs = started_by-append es fs
started_by-append (watched path ∷ es) fs = started_by-append es fs
started_by-append (unwatched watch ∷ es) fs = started_by-append es fs
started_by-append (deleted command ∷ es) fs = started_by-append es fs

-- An object that can be called: it is there, and its command has a name.
abbrev pub Callable : Option Process → Type 0
Callable none = ⊥
Callable (some x) = x.command ≢ []

pub record IsReady {os : Os} (n : ℕ) (w : World os) : Type 0 where
  pub size : length w.heap ≡ n
  pub callable : All Callable w.heap

pub record After {os : Os} (n : ℕ) (w : World os) (ps : List Ptr) (w' : World os) : Type 0 where
  pub ready : IsReady n w'
  pub starts : started_by w'.trace ≡ started_by w.trace ++ ps

pub data Returns {os : Os} {A : Type 0} (P : A → World os → Type 0) : Run os A → Type 0 where
  returns : {a : A} {w : World os} → P a w → Returns P (done a w)

pub record Does {os : Os} {A : Type 0} (n : ℕ) (P : A → Type 0) (ps : List Ptr) (m : M os A)
    : Type 0 where
  pub apply : (w : World os) → IsReady n w → Returns (λ a w'. P a × After n w ps w') (m w)

abbrev pub Any {ℓ} : {A : Type ℓ} → A → Type 0
Any a = Unit

pub After-trans :
    {os : Os} {n : ℕ} {w u v : World os} {ps qs : List Ptr}
    → After n w ps u
    → After n u qs v
    → After n w (ps ++ qs) v
After-trans {w = w} {ps = ps} {qs = qs} a b = record {
  ready = b.ready;
  starts = b.starts ∙ rw a.starts (append_assoc (started_by w.trace) ps qs);
}

widen :
    {os : Os} {n : ℕ} {A : Type 0} {Q : A → Type 0} {w u : World os} {ps qs : List Ptr}
    {r : Run os A}
    → After n w ps u
    → Returns (λ a v. Q a × After n u qs v) r
    → Returns (λ a v. Q a × After n w (ps ++ qs) v) r
widen first (returns (q, second)) = returns (q, After-trans first second)

module _ {os : Os} {n : ℕ} where
  pub After-refl : {w : World os} → IsReady n w → After n w [] w
  After-refl {w} r = record { ready = r; starts = sym (append-nil (started_by w.trace)) }

  bind_run :
      {A B : Type 0} {P : A → Type 0} {Q : B → Type 0} {ps qs : List Ptr} {w : World os}
      {r : Run os A} (k : A → M os B)
      → Returns (λ a w'. P a × After n w ps w') r
      → ((a : A) → P a → Does n Q qs (k a))
      → Returns (λ b w'. Q b × After n w (ps ++ qs) w') (and_then r k)
  bind_run k (returns {a} {w = u} (p, first)) f = widen first ((f a p).apply u first.ready)

  pub Does-bind :
      {A B : Type 0} {P : A → Type 0} {Q : B → Type 0} {ps qs : List Ptr} {m : M os A}
      {k : A → M os B}
      → Does n P ps m
      → ((a : A) → P a → Does n Q qs (k a))
      → Does n Q (ps ++ qs) (m >>= k)
  Does-bind {k} d f = record { apply = λ w r. bind_run k (d.apply w r) f }

  pub Does-then :
      {A B : Type 0} {P : A → Type 0} {Q : B → Type 0} {ps qs : List Ptr} {m : M os A} {k : M os B}
      → Does n P ps m
      → Does n Q qs k
      → Does n Q (ps ++ qs) (m >> k)
  Does-then {k} d e = record { apply = λ w r. bind_run (λ _. k) (d.apply w r) (λ _ _. e) }

  pub Does-pure : {A : Type 0} {P : A → Type 0} {a : A} → P a → Does n P [] (pure {os = os} a)
  Does-pure p = record { apply = λ w r. returns (p, After-refl r) }

  pub Does-if :
      {A : Type 0} {P : A → Type 0} {ps : List Ptr} {m k : M os A} (b : Bool)
      → Does n P ps m
      → Does n P ps k
      → Does n P ps (if b then m else k)
  Does-if true d e = d
  Does-if false d e = e

  -- A call that changes the state of the system alone.
  pub Does-system :
      {A : Type 0} {P : A → Type 0} (f : os.State → A × os.State)
      → ((s : os.State) → P (f s).0)
      → Does n P [] (system_call {os = os} f)
  unfolding system_call
  Does-system f p = record {
    apply = λ w r. returns (
      p w.system,
      record {
        ready = record { size = r.size; callable = r.callable };
        starts = sym (append-nil (started_by w.trace));
      },
    );
  }

  pub Does-emit : (e : Event) → Does n Any (started_by (e ∷ [])) (emit {os = os} e)
  Does-emit e = record {
    apply = λ w r. returns (
      tt,
      record {
        ready = record { size = r.size; callable = r.callable };
        starts = started_by-append w.trace (e ∷ []);
      },
    );
  }

pub get_elem?-Callable :
    (heap : List (Option Process)) (p : ℕ)
    → p < length heap
    → All Callable heap
    → (x : Process) × (get_elem? heap p ≡ some (some x)) × (x.command ≢ [])
get_elem?-Callable [] p h c = elim h [ ]
get_elem?-Callable (none ∷ heap) zero h c = absurd c.0
get_elem?-Callable (some x ∷ heap) zero h c = (x, refl, c.0)
get_elem?-Callable (x ∷ heap) (suc p) h c = get_elem?-Callable heap p (omega arith) c.1

set-Callable :
    (heap : List (Option Process)) (p : ℕ) (x : Process)
    → x.command ≢ []
    → All Callable heap
    → All Callable (set heap p (some x))
set-Callable [] p x h c = c
set-Callable (y ∷ heap) zero x h c = (h, c.1)
set-Callable (y ∷ heap) (suc p) x h c = (c.0, set-Callable heap p x h c.1)

module _ {os : Os} {n : ℕ} where
  pub Does-load : (p : Ptr) → p < n → Does n (λ (x : Process). x.command ≢ []) [] (load {os = os} p)
  unfolding load
  Does-load p h = record { apply = λ w r. loaded w r }
    where
      loaded :
          (w : World os)
          → IsReady n w
          → Returns (λ (x : Process) w'. (x.command ≢ []) × After n w [] w') (load p w)
      loaded w r =
          let (x, found, c) = get_elem?-Callable w.heap p (omega (arith, r.size)) r.callable in
          rw (found, load) (returns (c, After-refl r))

  pub Does-store : (p : Ptr) (x : Process) → x.command ≢ [] → Does n Any [] (store {os = os} p x)
  unfolding store
  Does-store p x c = record {
    apply = λ w r. returns (
      tt,
      record {
        ready = record {
          size = length-set w.heap p (some x) ∙ r.size;
          callable = set-Callable w.heap p x c r.callable;
        };
        starts = sym (append-nil (started_by w.trace));
      },
    );
  }
