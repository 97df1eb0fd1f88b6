-- ===== src/Config/Memory/Document.antt =====
-- The constructor and the destructor of src/config.cpp together, on a document.
use mathlib.Core.Path.{fun_ext}
use renzoku.Prelude.{◌≡◌, refl, sym, subst, ◌∙◌, ap, Option, none, some, List, [], All}
use renzoku.Text.{Text}
use renzoku.Yaml.{Yaml}
use renzoku.World.{Os, World}
use renzoku.World.Does.{Callable}
use renzoku.World.Ends.{Ends, Ends-map}
use renzoku.Procman.{empty}
use renzoku.Config.{Config, config_from_file}
use renzoku.Config.Commands.{IsBounded}
use renzoku.Config.Plan.{Plan, no_plan, plan_of}
use renzoku.Config.Holds.{Holds}
use renzoku.Config.Refine.{Follows}
use renzoku.Config.Refine.Document.{IsDocument, config_from_file-Follows}
use renzoku.Util.Command.Memory.{Memory}
use renzoku.Config.Memory.{
  Member, compile, test, program, Commands, no_commands, assign_all, destroy,
}
use renzoku.Config.Memory.Blocks.{Frees}
use renzoku.Config.Memory.Owned.{Owned}
use renzoku.Config.Memory.Last.{last, every}
use renzoku.Config.Memory.Assignments.{commands_of, assignments, plan_of-Assigns}
use renzoku.Config.Memory.Destroyed.{owned_blocks, destroy-assigned}

-- Each member holds its command in blocks of its own, and the destructor deletes these blocks and
-- no other.
pub record IsFreed (state : Commands × Memory) (t : Member → Option (List Text)) : Type 0 where
  pub owned : Owned state.0 state.1 t
  pub freed : Frees (owned_blocks state.0 t) state.1 (destroy state.0 state.1)

-- The commands of a Config.
abbrev pub held_by : Config → Member → Option (List Text)
held_by c compile = c.compile.command
held_by c test = c.test.command
held_by c program = c.program.command

assigned-IsFreed :
    (a : List (Member × List Text)) → IsFreed (assign_all a (no_commands, [])) (last a none)
assigned-IsFreed a =
    let (owned, freed) = destroy-assigned a in record { owned = owned; freed = freed }

held_by-Holds :
    (plan : Plan) (c : Config) (w : _)
    → Holds plan c w
    → (s : Member) → commands_of plan s ≡ held_by c s
held_by-Holds plan c w h = every _ (rw h.compile refl) (rw h.test refl) (rw h.program refl)

module _ (y : Yaml) (os : Os) where
  planned-IsFreed :
      (entries : List (y.Node × y.Node)) (w : World os) (c : Config) (w' : World os)
      → Follows (plan_of y entries no_plan) w c w'
      → IsFreed (assign_all (assignments y entries) (no_commands, [])) (held_by c)
  planned-IsFreed entries w c w' f =
      subst (IsFreed (assign_all (assignments y entries) (no_commands, [])))
        (fun_ext λ s. sym (held s)) (assigned-IsFreed (assignments y entries))
    where
      no_commands_of : (s : Member) → commands_of no_plan s ≡ none
      no_commands_of = every _ refl refl refl

      held : (s : Member) → held_by c s ≡ last (assignments y entries) none s
      held s =
          sym (held_by-Holds f.plan c w'.heap f.holds s)
          ∙ (plan_of-Assigns y entries no_plan).given f.plan f.planned s
          ∙ ap (λ t. last (assignments y entries) t s) (no_commands_of s)

  -- The constructor and the destructor together. Under the conditions of
  -- `config_from_file-Follows` on a file, the constructor throws where the document has no plan,
  -- and else it returns a Config. Then the assignments of commands that the document makes leave
  -- each member with the array of the words of the Config's command, or null where it has none,
  -- in blocks that no other member has. The destructor deletes these blocks, each once and none
  -- that is deleted or absent, and no other block: the array of a command that a later one
  -- replaced is never deleted.
  pub config_from_file-IsFreed :
      (bounded : IsBounded y) (file : Text) (node : y.Node) (w : World os)
      → y.load file ≡ some node
      → IsDocument y os node
      → All Callable w.heap
      → Ends
          (λ c w'.
            IsFreed (assign_all (assignments y (y.entries node)) (no_commands, [])) (held_by c))
          (plan_of y (y.entries node) no_plan ≡ none)
          (config_from_file y os empty (some file) w)
  config_from_file-IsFreed bounded file node w loaded document callable =
      Ends-map (planned-IsFreed (y.entries node) w) (λ e. e)
        (config_from_file-Follows y os bounded file node w loaded document callable)
