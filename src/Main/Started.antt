-- ===== src/Main/Started.antt =====
-- The objects of `main` in src/main.cpp before its loop.
use renzoku.Prelude.{
  ℕ, ◌<◌, ◌≡◌, refl, ap, ◌∙◌, Option, none, some, List, [], ◌∷◌, arith, length, get_elem?-lt,
  append-nil, map,
}
use renzoku.Text.{Text}
use renzoku.World.{Os, World, Ptr, Run, watched}
use renzoku.World.Does.{
  IsReady, Returns, returns, started_by, started_by-append, get_elem?-Callable,
}
use renzoku.World.Emitted.{Yielded}
use renzoku.Procman.{ProcessManager}
use renzoku.Procman.Apart.{IsApart}
use renzoku.Procman.Destroy.{AreLive}
use renzoku.Procman.Restart.{Below}
use renzoku.Config.{Config}
use renzoku.Config.Plan.{Plan}
use renzoku.Config.Holds.{Heap, Refers, ReferEach, IsNamedPlan, Holds}
use renzoku.Watcher.{Watcher}
use renzoku.Watcher.Created.{Created}
use renzoku.Watcher.Rebuild.{IsArmed}

-- The pointer that a plan has a command for.
refers_some :
    (heap : Heap) (o : Option Ptr) (command : List Text)
    → Refers heap o (some command)
    → (p : Ptr) × (o ≡ some p) × (p < length heap)
refers_some heap none command h = absurd h
refers_some heap (some p) command h = (p, refl, get_elem?-lt heap p h)

refer-Below :
    (heap : Heap) (ps : List Ptr) (cs : List (List Text))
    → ReferEach heap ps cs
    → Below (length heap) ps
refer-Below heap [] cs h = tt
refer-Below heap (p ∷ ps) [] h = absurd h
refer-Below heap (p ∷ ps) (c ∷ cs) h = (get_elem?-lt heap p h.0, refer-Below heap ps cs h.1)

no_starts : (ps : List Text) → started_by (map watched ps) ≡ []
unfolding started_by
no_starts [] = refl
no_starts (p ∷ ps) = no_starts ps

-- Two managers with the same pointers.
pub same_manager :
    (a b : ProcessManager)
    → a.build_step ≡ b.build_step
    → a.processes ≡ b.processes
    → a.program ≡ b.program
    → a ≡ b
same_manager a b e f g = λ i. record { build_step = e i; processes = f i; program = g i }

pub all_live :
    {os : Os} (n : ℕ) (w : World os) (ps : List Ptr) → IsReady n w → Below n ps → AreLive w ps
all_live n w [] r h = tt
all_live n w (p ∷ ps) r h =
    let (x, found, c) = get_elem?-Callable w.heap p (omega (arith, r.size, h.0)) r.callable in
    ((x, found), all_live n w ps r h.1)

-- A world in which the watcher is armed and its config holds the plan, with as many objects as
-- the heap has, and all pointers of its manager different.
pub record IsStarted {os : Os} (plan : Plan) (w : World os) (x : Watcher) (w' : World os)
    : Type 0 where
  pub builder : Ptr
  pub program : Ptr
  pub armed : IsArmed (length w'.heap) builder program x.config.procman.processes x
  pub ready : IsReady (length w'.heap) w'
  pub apart : IsApart (length w'.heap) x.config.procman
  pub starts : started_by w'.trace ≡ started_by w.trace
  pub holds : Holds plan x.config w'.heap

-- The watcher that `new_watcher` gives for a config that holds a plan.
pub IsStarted-watcher :
    {os : Os} (plan : Plan) (build run : List Text) (ps : List Text) (c : Config) (w u : World os)
    (r : Run os Watcher)
    → plan.build ≡ some build
    → plan.run ≡ some run
    → IsNamedPlan plan
    → Holds plan c u.heap
    → started_by u.trace ≡ started_by w.trace
    → Returns (Yielded (Created c ps) u) r
    → Returns (λ x w'. IsStarted plan w x w') r
IsStarted-watcher plan build run ps c w u r pb pr v h t (returns {a = x} {w = w'} (em, same)) =
    let (e, (fds, (conf, builder))) = em.holds in
    let (b, eb, lb) = refers_some u.heap c.procman.build_step build (rw pb at h.build) in
    let (p, ep, lp) = refers_some u.heap c.procman.program run (rw pr at h.run) in
    returns (record {
      builder = b;
      program = p;
      armed = record {
        builder = builder ∙ eb;
        complete = record {
          build_step = ap (λ (c' : Config). c'.procman.build_step) conf ∙ eb;
          program = ap (λ (c' : Config). c'.procman.program) conf ∙ ep;
          builder_below = rw same lb;
          program_below = rw same lp;
          processes_below =
              rw (same, conf) (refer-Below u.heap c.procman.processes plan.tests h.tests);
        };
        listed = refl;
      };
      ready = record { size = refl; callable = rw same (h.callable v) };
      apart = rw (same, conf) h.apart;
      holds = rw (same, conf) h;
      starts = rw em.grown (
          started_by-append u.trace em.events
          ∙ rw (e, no_starts ps) (append-nil (started_by u.trace))
          ∙ t);
    })
