-- ===== src/Config/Holds.antt =====
-- A Config and the objects on the heap, against a plan.
use renzoku.Prelude.{
  pos, ℕ, zero, suc, ◌+◌, ◌≡◌, ◌≢◌, refl, sym, subst, true, false, Option, none, some, List, [],
  ◌∷◌, ◌++◌, length, length-append, get_elem?, All,
}
use renzoku.Text.{Text}
use renzoku.World.{Process, Ptr}
use renzoku.World.Does.{Callable}
use renzoku.Procman.{ProcessManager}
use renzoku.Procman.Apart.{IsApart}
use renzoku.Config.{Config}
use renzoku.Config.Plan.{Plan}

-- A process that has not run.
abbrev pub fresh : List Text → Process
fresh command = record {
  proc = pos 0;
  search_in_path = true;
  generated_command = false;
  enabled = true;
  command = command;
}

abbrev pub Heap : Type 0
Heap = List (Option Process)

-- The pointer is to a process with the command, and null where there is none.
abbrev pub Refers : Heap → Option Ptr → Option (List Text) → Type 0
Refers heap none none = Unit
Refers heap (some p) (some command) = get_elem? heap p ≡ some (some (fresh command))
Refers heap _ _ = ⊥

abbrev pub ReferEach : Heap → List Ptr → List (List Text) → Type 0
ReferEach heap [] [] = Unit
ReferEach heap (p ∷ ps) (command ∷ commands) =
    (get_elem? heap p ≡ some (some (fresh command))) × ReferEach heap ps commands
ReferEach heap _ _ = ⊥

-- A command that is asked for has a name.
abbrev pub IsNamedCommand : Option (List Text) → Type 0
IsNamedCommand none = Unit
IsNamedCommand (some command) = command ≢ []

abbrev pub IsNamedPlan : Plan → Type 0
IsNamedPlan plan =
    IsNamedCommand plan.build × (All (λ command. command ≢ []) plan.tests × IsNamedCommand plan.run)

-- The sections of the config are those of the plan, its manager has the processes of the plan,
-- each at another address, and all objects have a command if all commands of the plan have a
-- name.
pub record Holds (plan : Plan) (c : Config) (heap : Heap) : Type 0 where
  pub watch : c.watch ≡ plan.watch
  pub compile : c.compile ≡ plan.compile
  pub test : c.test ≡ plan.test
  pub program : c.program ≡ plan.program
  pub build : Refers heap c.procman.build_step plan.build
  pub tests : ReferEach heap c.procman.processes plan.tests
  pub run : Refers heap c.procman.program plan.run
  pub callable : IsNamedPlan plan → All Callable heap
  pub apart : IsApart (length heap) c.procman

-- A manager on a heap with one more object.
pub IsApart-snoc :
    (heap : Heap) (o : Option Process) (pm : ProcessManager)
    → IsApart (length heap + 1) pm
    → IsApart (length (heap ++ o ∷ [])) pm
IsApart-snoc heap o pm h = subst (λ n. IsApart n pm) (sym (length-append heap (o ∷ []))) h

pub get_elem?-append :
    {A : Type 0} (xs ys : List A) (i : ℕ) {x : A}
    → get_elem? xs i ≡ some x
    → get_elem? (xs ++ ys) i ≡ some x
get_elem?-append [] ys i e = absurd (cc)
get_elem?-append (z ∷ xs) ys zero e = e
get_elem?-append (z ∷ xs) ys (suc i) e = get_elem?-append xs ys i e

pub get_elem?-length :
    {A : Type 0} (xs : List A) (x : A) → get_elem? (xs ++ x ∷ []) (length xs) ≡ some x
get_elem?-length [] x = refl
get_elem?-length (z ∷ xs) x = get_elem?-length xs x

pub Refers-append :
    (heap more : Heap) (o : Option Ptr) (q : Option (List Text))
    → Refers heap o q
    → Refers (heap ++ more) o q
Refers-append heap more none none h = tt
Refers-append heap more none (some command) h = absurd h
Refers-append heap more (some p) none h = absurd h
Refers-append heap more (some p) (some command) h = get_elem?-append heap more p h

pub ReferEach-append :
    (heap more : Heap) (ps : List Ptr) (cs : List (List Text))
    → ReferEach heap ps cs
    → ReferEach (heap ++ more) ps cs
ReferEach-append heap more [] [] h = tt
ReferEach-append heap more [] (c ∷ cs) h = absurd h
ReferEach-append heap more (p ∷ ps) [] h = absurd h
ReferEach-append heap more (p ∷ ps) (c ∷ cs) (h, k) =
    (get_elem?-append heap more p h, ReferEach-append heap more ps cs k)

pub ReferEach-snoc :
    (heap : Heap) (ps : List Ptr) (cs : List (List Text)) (p : Ptr) (command : List Text)
    → ReferEach heap ps cs
    → get_elem? heap p ≡ some (some (fresh command))
    → ReferEach heap (ps ++ p ∷ []) (cs ++ command ∷ [])
ReferEach-snoc heap [] [] p command h e = (e, tt)
ReferEach-snoc heap [] (c ∷ cs) p command h e = absurd h
ReferEach-snoc heap (q ∷ ps) [] p command h e = absurd h
ReferEach-snoc heap (q ∷ ps) (c ∷ cs) p command (h, k) e =
    (h, ReferEach-snoc heap ps cs p command k e)
