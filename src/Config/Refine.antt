-- ===== src/Config/Refine.antt =====
-- `parseConfig` of src/config.cpp against `plan_of`.
pub mod Program
pub mod Document
pub mod Unbuilt
pub mod Sections
pub mod Compile
pub mod Test
use renzoku.Prelude.{
  ◌≡◌, ◌≢◌, refl, sym, ◌∙◌, ap, subst, Bool, true, false, Option, none, some, List, [], ◌∷◌, ◌++◌,
  length, All, All-append, if◌then◌else◌,
}
use renzoku.Text.{Text, bytes, text_eq}
use renzoku.Yaml.{Yaml}
use renzoku.World.{Os, World, Ptr, M, Run, done, stopped, ◌>>=◌, ◌>>◌, pure, and_then}
use renzoku.World.Does.{Callable, started_by}
use renzoku.World.Ends.{Ends, returned, raised, Ends-bind, Ends-map, IsSame, IsSame-refl}
use renzoku.Util.Command.{◌>>=◌ as ◌>>?◌}
use renzoku.Procman.{ProcessManager, set_builder, set_program, add_process}
use renzoku.Procman.Setup.{set_program_unset, set_builder_unset, add_process_lem}
use renzoku.Config.{
  CommandConfig, Config, new_process, guard_unset, read_program, read_test, read_compile,
}
use renzoku.Config.Reads.{Reads, Reads-as}
use renzoku.Config.Commands.{IsBounded, Reads-parse_section}
use renzoku.Config.Plan.{
  Plan, asked, once, command_section, program_section, test_section, compile_section,
}
use renzoku.Config.Holds.{
  Heap, fresh, Refers, ReferEach, IsNamedPlan, Holds, get_elem?-length, Refers-append,
  ReferEach-append, ReferEach-snoc,
}
use renzoku.Config.Created.{with_process, new_process-none, new_process-some}

-- The config that a call gives holds the plan, and nothing was started.
pub record Follows {os : Os} (o : Option Plan) (w : World os) (c : Config) (w' : World os)
    : Type 0 where
  pub plan : Plan
  pub planned : o ≡ some plan
  pub holds : Holds plan c w'.heap
  pub starts : started_by w'.trace ≡ started_by w.trace

pub Follows-bind :
    {os : Os} {A : Type 0} (o : Option A) (f : A → Option Plan) (w : World os) (r : Run os A)
    (k : A → M os Config)
    → Ends (λ a u. (o ≡ some a) × IsSame w u) (o ≡ none) r
    → ((a : A) (u : World os) → IsSame w u → Ends (Follows (f a) w) (f a ≡ none) (k a u))
    → Ends (Follows (o >>? f) w) ((o >>? f) ≡ none) (and_then r k)
Follows-bind o f w r k (returned {a} {w = u} (e, s)) g = rw e (g a u s)
Follows-bind o f w r k (raised e) g = raised (rw e)

module _ (y : Yaml) (os : Os) where
  pub guard_unset-none :
      {A : Type 0} (o : Option Ptr) (message : Text) (m : M os A) (w : World os)
      → o ≡ none
      → (guard_unset y os o message >> m) w ≡ m w
  guard_unset-none none message m w e = refl
  guard_unset-none (some p) message m w e = absurd (cc)

  pub guard_unset-some :
      {A : Type 0} {Q : A → World os → Type 0} {E : Type 0} (o : Option Ptr) (p : Ptr)
      (message : Text) (m : M os A) (w : World os)
      → o ≡ some p
      → E
      → Ends Q E ((guard_unset y os o message >> m) w)
  guard_unset-some none p message m w e r = absurd (cc)
  guard_unset-some (some q) p message m w e r = raised r
