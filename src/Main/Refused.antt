-- ===== src/Main/Refused.antt =====
-- `main` of src/main.cpp over a config file that is refused.
use renzoku.Prelude.{ℕ, ◌≡◌, Bool, List, none, some, All}
use renzoku.Text.{Text}
use renzoku.Yaml.{Yaml}
use renzoku.World.{Os, World, Run, M, stdout_logger, and_then}
use renzoku.World.Does.{Callable}
use renzoku.World.Ends.{Ends, returned, raised, Ends-bind}
use renzoku.Log.{new_stdout_logger, startup}
use renzoku.Config.{Config}
use renzoku.Config.Commands.{IsBounded}
use renzoku.Config.Plan.{no_plan, plan_of}
use renzoku.Config.Refine.{Follows}
use renzoku.Config.Refine.Document.{IsDocument, config_from_file-Follows}
use renzoku.Main.{start_up, main}

module _ (y : Yaml) (os : Os) where
  refused :
      {A : Type 0} (node : y.Node) {w : World os} {r : Run os Config} (k : Config → M os A)
      → plan_of y (y.entries node) no_plan ≡ none
      → Ends
          (Follows (plan_of y (y.entries node) no_plan) w)
          (plan_of y (y.entries node) no_plan ≡ none)
          r
      → Ends (λ _ _. ⊥) (Unit {0}) (and_then r k)
  refused node k e (returned t) = let planned = t.planned in absurd (cc)
  refused node k e (raised h) = raised tt

  -- Where the config file holds a document that passes the assertions, with texts shorter than
  -- `npos`, but that has no plan, `main` ends with an exception: it does not come to its loop,
  -- whatever signals arrive.
  pub main-refused :
      (bounded : IsBounded y) (fuel : ℕ) (file : Text) (node : y.Node) (early : Bool)
      (arrivals : List Bool) (w : World os)
      → y.load file ≡ some node
      → IsDocument y os node
      → plan_of y (y.entries node) no_plan ≡ none
      → All Callable w.heap
      → Ends (λ _ _. ⊥) (Unit {0}) (main y os fuel (some file) early arrivals w)
  unfolding main start_up new_stdout_logger startup
  main-refused bounded fuel file node early arrivals w loaded document none_planned callable =
      Ends-bind
        (refused node _ none_planned (
          config_from_file-Follows y os bounded file node (record w { logger = stdout_logger })
            loaded document callable))
        λ _ _ never. absurd never
