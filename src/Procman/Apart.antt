-- ===== src/Procman/Apart.antt =====
-- A ProcessManager (src/procman.cpp) whose pointers are all different.
use renzoku.Prelude.{
  ℕ, ◌+◌, ◌≤◌, ◌<◌, ◌≢◌, Option, none, some, List, [], ◌∷◌, ◌++◌, arith, All, All-map, All-append,
}
use renzoku.World.{Ptr}
use renzoku.Procman.{ProcessManager}

abbrev pub NotIn : Ptr → List Ptr → Type 0
NotIn q ps = All (λ p. q ≢ p) ps

abbrev pub AreDistinct : List Ptr → Type 0
AreDistinct [] = Unit
AreDistinct (p ∷ ps) = NotIn p ps × AreDistinct ps

-- A pointer that may be null is none of the list, or another than one that may be null.
abbrev pub OtherThan : List Ptr → Option Ptr → Type 0
OtherThan ps none = Unit
OtherThan ps (some p) = NotIn p ps

abbrev pub Differ : Option Ptr → Option Ptr → Type 0
Differ (some p) (some q) = p ≢ q
Differ _ _ = Unit

abbrev pub IsUnder : ℕ → Option Ptr → Type 0
IsUnder n none = Unit
IsUnder n (some p) = p < n

-- The pointers are all different, and below `n`.
pub record IsApart (n : ℕ) (pm : ProcessManager) : Type 0 where
  pub processes_below : All (λ p. p < n) pm.processes
  pub build_below : IsUnder n pm.build_step
  pub program_below : IsUnder n pm.program
  pub processes : AreDistinct pm.processes
  pub build : OtherThan pm.processes pm.build_step
  pub program : OtherThan pm.processes pm.program
  pub both : Differ pm.build_step pm.program

All-up : (n m : ℕ) (ps : List Ptr) → n ≤ m → All (λ p. p < n) ps → All (λ p. p < m) ps
All-up n m ps le h = All-map (λ p l. omega (arith, le, l)) ps h

IsUnder-up : (n m : ℕ) (o : Option Ptr) → n ≤ m → IsUnder n o → IsUnder m o
IsUnder-up n m none le h = tt
IsUnder-up n m (some p) le h = omega arith

NotIn-below : (n : ℕ) (ps : List Ptr) → All (λ p. p < n) ps → NotIn n ps
NotIn-below n [] h = tt
NotIn-below n (p ∷ ps) h = let low = h.0 in ((λ e. omega arith), NotIn-below n ps h.1)

OtherThan-snoc :
    (n : ℕ) (ps : List Ptr) (o : Option Ptr)
    → OtherThan ps o
    → IsUnder n o
    → OtherThan (ps ++ n ∷ []) o
OtherThan-snoc n ps none h k = tt
OtherThan-snoc n ps (some p) h k = All-append _ ps (n ∷ []) h ((λ e. omega arith), tt)

NotIn-snoc : (p n : ℕ) (ps : List Ptr) → NotIn p ps → p < n → NotIn p (ps ++ n ∷ [])
NotIn-snoc p n ps h k = All-append _ ps (n ∷ []) h ((λ e. omega arith), tt)

AreDistinct-snoc :
    (n : ℕ) (ps : List Ptr) → AreDistinct ps → All (λ p. p < n) ps → AreDistinct (ps ++ n ∷ [])
AreDistinct-snoc n [] h k = (tt, tt)
AreDistinct-snoc n (p ∷ ps) h k = (NotIn-snoc p n ps h.0 k.0, AreDistinct-snoc n ps h.1 k.1)

Differ-new : (n : ℕ) (o : Option Ptr) → IsUnder n o → Differ o (some n) × Differ (some n) o
Differ-new n none h = (tt, tt)
Differ-new n (some p) h = ((λ e. omega arith), (λ e. omega arith))

pub IsApart-program :
    (n : ℕ) (pm : ProcessManager) → IsApart n pm → IsApart (n + 1) (record pm { program = some n })
IsApart-program n pm h = record {
  processes_below = All-up n (n + 1) pm.processes (omega arith) h.processes_below;
  build_below = IsUnder-up n (n + 1) pm.build_step (omega arith) h.build_below;
  program_below = omega arith;
  processes = h.processes;
  build = h.build;
  program = NotIn-below n pm.processes h.processes_below;
  both = (Differ-new n pm.build_step h.build_below).0;
}

pub IsApart-build :
    (n : ℕ) (pm : ProcessManager)
    → IsApart n pm
    → IsApart (n + 1) (record pm { build_step = some n })
IsApart-build n pm h = record {
  processes_below = All-up n (n + 1) pm.processes (omega arith) h.processes_below;
  build_below = omega arith;
  program_below = IsUnder-up n (n + 1) pm.program (omega arith) h.program_below;
  processes = h.processes;
  build = NotIn-below n pm.processes h.processes_below;
  program = h.program;
  both = (Differ-new n pm.program h.program_below).1;
}

pub IsApart-process :
    (n : ℕ) (pm : ProcessManager)
    → IsApart n pm
    → IsApart (n + 1) (record pm { processes = pm.processes ++ n ∷ [] })
IsApart-process n pm h = record {
  processes_below =
      All-append _ pm.processes (n ∷ [])
        (All-up n (n + 1) pm.processes (omega arith) h.processes_below) (omega arith, tt);
  build_below = IsUnder-up n (n + 1) pm.build_step (omega arith) h.build_below;
  program_below = IsUnder-up n (n + 1) pm.program (omega arith) h.program_below;
  processes = AreDistinct-snoc n pm.processes h.processes h.processes_below;
  build = OtherThan-snoc n pm.processes pm.build_step h.build h.build_below;
  program = OtherThan-snoc n pm.processes pm.program h.program h.program_below;
  both = h.both;
}
