-- ===== src/Procman/Setup.antt =====
-- The setters of src/procman.cpp on a manager that has been given no build step, and `killAll` on
-- it.
use renzoku.Prelude.{◌≡◌, refl, Option, none, some, List, [], ◌∷◌, ◌++◌}
use renzoku.World.{Os, World, Ptr, Event, done, stopped, undefined}
use renzoku.World.Traces.{Traces, ends, Traces-pure}
use renzoku.Procman.{ProcessManager, set_program, set_builder, add_process, kill_all}

-- The manager has no build step.
abbrev pub Unbuilt : ProcessManager → List Event → Type 0
Unbuilt pm es = pm.build_step ≡ none

module _ (os : Os) where
  pub Traces-set_program :
      (p : Ptr) (pm : ProcessManager) → pm.build_step ≡ none → Traces Unbuilt (set_program os p pm)
  unfolding set_program
  Traces-set_program p pm e = unset pm.program refl
    where
      unset : (o : Option Ptr) → pm.program ≡ o → Traces Unbuilt (set_program os p pm)
      unset none f = rw (set_program, f) (Traces-pure (record pm { program = some p }) e)
      unset (some q) f = rw (set_program, f) (record { apply = λ w. ends })

  pub Traces-add_process :
      (p : Ptr) (pm : ProcessManager) → pm.build_step ≡ none → Traces Unbuilt (add_process os p pm)
  unfolding add_process
  Traces-add_process p pm e = Traces-pure _ e

  -- `killAll` dereferences the null pointer of the build step.
  pub kill_all_unbuilt :
      (pm : ProcessManager) (w : World os)
      → pm.build_step ≡ none
      → kill_all os pm w ≡ stopped undefined w
  unfolding kill_all
  kill_all_unbuilt pm w e = rw e

  pub set_program_unset :
      (p : Ptr) (pm : ProcessManager) (w : World os)
      → pm.program ≡ none
      → set_program os p pm w ≡ done (record pm { program = some p }) w
  unfolding set_program
  set_program_unset p pm w e = rw (e, set_program) refl

  pub set_builder_unset :
      (p : Ptr) (pm : ProcessManager) (w : World os)
      → pm.build_step ≡ none
      → set_builder os p pm w ≡ done (record pm { build_step = some p }) w
  unfolding set_builder
  set_builder_unset p pm w e = rw (e, set_builder) refl

  pub add_process_lem :
      (p : Ptr) (pm : ProcessManager) (w : World os)
      → add_process os p pm w ≡ done (record pm { processes = pm.processes ++ (p ∷ []) }) w
  unfolding add_process
  add_process_lem p pm w = refl
