-- ===== src/Config/Refine/Unbuilt.antt =====
-- A config file without a command to build with, in the constructor of src/config.cpp.
use renzoku.Prelude.{◌≡◌, refl, Option, none, some, All}
use renzoku.Text.{Text}
use renzoku.Yaml.{Yaml}
use renzoku.World.{Os, World, Ptr, Run, stopped, undefined}
use renzoku.World.Does.{Callable, Returns, returns}
use renzoku.World.Ends.{Ends, returned, raised}
use renzoku.Procman.{empty, kill_all}
use renzoku.Procman.Setup.{kill_all_unbuilt}
use renzoku.Config.{Config, config_from_file}
use renzoku.Config.Commands.{IsBounded}
use renzoku.Config.Plan.{Plan, no_plan, plan_of}
use renzoku.Config.Holds.{Heap, Refers}
use renzoku.Config.Refine.{Follows}
use renzoku.Config.Refine.Document.{IsDocument, config_from_file-Follows}

-- The manager of the config has no build step, and `killAll` on it is undefined at once.
abbrev pub IsUnbuilt : (os : Os) → Config → Type 0
IsUnbuilt os c =
    (c.procman.build_step ≡ none) × ((u : World os) → kill_all os c.procman u ≡ stopped undefined u)

Refers-none : (heap : Heap) (o : Option Ptr) → Refers heap o none → o ≡ none
Refers-none heap none h = refl
Refers-none heap (some p) h = absurd h

module _ (y : Yaml) (os : Os) where
  accepted :
      (plan : Plan) (o : Option Plan) (w : World os) (r : Run os Config)
      → o ≡ some plan
      → plan.build ≡ none
      → Ends (Follows o w) (o ≡ none) r
      → Returns (λ c w'. IsUnbuilt os c) r
  accepted plan o w r e unset (returned {a = c} {w = w'} f) =
      let same : f.plan ≡ plan = (let g = f.planned in cc) in
      let bare : c.procman.build_step ≡ none =
        Refers-none w'.heap c.procman.build_step (rw (same, unset) at f.holds.build) in
      returns (bare, λ u. kill_all_unbuilt os c.procman u bare)
  accepted plan o w r e unset (raised f) = absurd (cc)

  -- A config file without a command to build with is accepted: under the conditions of
  -- `config_from_file-Follows` on a file whose document has a plan without one, the constructor
  -- of Config returns. The manager of the config has no build step then, and from every state of
  -- the world `killAll` on it is undefined at once.
  pub config_from_file-IsUnbuilt :
      (bounded : IsBounded y) (file : Text) (node : y.Node) (plan : Plan) (w : World os)
      → y.load file ≡ some node
      → IsDocument y os node
      → plan_of y (y.entries node) no_plan ≡ some plan
      → plan.build ≡ none
      → All Callable w.heap
      → Returns (λ c w'. IsUnbuilt os c) (config_from_file y os empty (some file) w)
  config_from_file-IsUnbuilt bounded file node plan w loaded document planned unset callable =
      accepted plan (plan_of y (y.entries node) no_plan) w _ planned unset
        (config_from_file-Follows y os bounded file node w loaded document callable)
