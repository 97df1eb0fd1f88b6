-- ===== src/Config/Refine/Sections.antt =====
-- The sections of a config file up to their order, and what `plan_of` says of them.
use mathlib.Core.Quot
use mathlib.Core.Quot.{Quot}
use renzoku.Prelude.{◌≡◌, refl, sym, subst, ap, ◌∙◌, Option, none, some, List, ◌∷◌, ◌++◌, All}
use renzoku.Text.{Text}
use renzoku.Yaml.{Yaml}
use renzoku.World.{Os, World}
use renzoku.World.Does.{Callable}
use renzoku.World.Ends.{Ends}
use renzoku.Procman.{empty}
use renzoku.Config.{config_from_file}
use renzoku.Config.Commands.{IsBounded}
use renzoku.Config.Plan.{Plan, no_plan, plan_of}
use renzoku.Config.Order.{HaveOtherNames, plan_of-swap}
use renzoku.Config.Refine.{Follows}
use renzoku.Config.Refine.Document.{IsDocument, config_from_file-Follows}

module _ (y : Yaml) where
  -- Two neighbours of different names have changed places.
  pub data IsSwap (es fs : List (y.Node × y.Node)) : Type 0 where
    swapped :
        (before after : List (y.Node × y.Node)) (first second : y.Node × y.Node)
        → HaveOtherNames y first.0 second.0
        → es ≡ before ++ (first ∷ second ∷ after)
        → fs ≡ before ++ (second ∷ first ∷ after)
        → IsSwap es fs

  -- The sections of a document, where only the order of those of one name counts.
  abbrev pub Sections : Type 0
  Sections = Quot IsSwap

  abbrev pub sections : y.Node → Sections
  sections node = Quot.mk (y.entries node)

  plan_of-IsSwap :
      (es fs : List (y.Node × y.Node)) → IsSwap es fs → plan_of y es no_plan ≡ plan_of y fs no_plan
  plan_of-IsSwap es fs (swapped before after first second names e f) =
      rw (e, f) (plan_of-swap y before after first.0 first.1 second.0 second.1 no_plan names)

  plan_set : IsSet (Option Plan)
  plan_set = hlevel

  -- `plan_of` is a function of the sections without their order.
  pub sections_plan : Sections → Option Plan
  sections_plan = Quot.lift plan_set (λ es. plan_of y es no_plan) plan_of-IsSwap

  sections_plan_lem :
      (node : y.Node) → sections_plan (sections node) ≡ plan_of y (y.entries node) no_plan
  unfolding sections_plan
  sections_plan_lem node = refl

  plan_of-sections :
      (node other : y.Node)
      → sections other ≡ sections node
      → plan_of y (y.entries other) no_plan ≡ plan_of y (y.entries node) no_plan
  plan_of-sections node other e =
      sym (sections_plan_lem other) ∙ ap sections_plan e ∙ sections_plan_lem node

module _ (y : Yaml) (os : Os) where
  -- What the constructor of Config does is a function of the sections up to the order of those of
  -- different names. Under the conditions of `config_from_file-Follows` on a file, and where the
  -- quotient takes its document for `node`, it returns exactly where `node` has a plan, holds
  -- that plan and starts nothing, and throws where `node` has none.
  pub config_from_file-sections :
      (bounded : IsBounded y) (file : Text) (node other : y.Node) (w : World os)
      → y.load file ≡ some other
      → IsDocument y os other
      → sections y other ≡ sections y node
      → All Callable w.heap
      → Ends
          (Follows (plan_of y (y.entries node) no_plan) w)
          (plan_of y (y.entries node) no_plan ≡ none)
          (config_from_file y os empty (some file) w)
  config_from_file-sections bounded file node other w loaded document same callable =
      subst (λ o. Ends (Follows o w) (o ≡ none) (config_from_file y os empty (some file) w))
        (plan_of-sections y node other same)
        (config_from_file-Follows y os bounded file other w loaded document callable)
