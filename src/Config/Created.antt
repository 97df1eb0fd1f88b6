-- ===== src/Config/Created.antt =====
-- The processes that `parseConfig` of src/config.cpp creates.
use renzoku.Prelude.{◌≡◌, refl, Bool, true, false, Option, none, some, List, [], ◌∷◌, ◌++◌, length}
use renzoku.Text.{Text}
use renzoku.Yaml.{Yaml}
use renzoku.World.{Os, World, Ptr, M, done}
use renzoku.Process.Create.{new_from_array_lem}
use renzoku.Procman.{ProcessManager}
use renzoku.Config.{CommandConfig, new_process}
use renzoku.Config.Plan.{asked}
use renzoku.Config.Holds.{fresh}

-- The world with one more process, at the end of the heap.
abbrev pub with_process : {os : Os} → List Text → World os → World os
with_process command w = record w { heap = w.heap ++ (some (fresh command) ∷ []) }

module _ (y : Yaml) (os : Os) where
  pub new_process-none :
      (c : CommandConfig) (use_it : Ptr → M os ProcessManager) (pm : ProcessManager) (w : World os)
      → asked c ≡ none
      → new_process y os c use_it pm w ≡ done pm w
  unfolding new_process
  new_process-none c use_it pm w e = by_command c.command c.enabled refl refl
    where
      by_command :
          (o : Option (List Text)) (b : Bool)
          → c.command ≡ o
          → c.enabled ≡ b
          → new_process y os c use_it pm w ≡ done pm w
      by_command none b f g = rw (f, new_process) refl
      by_command (some command) false f g = rw (f, new_process) (rw g refl)
      by_command (some command) true f g = absurd (cc)

  pub new_process-some :
      (c : CommandConfig) (use_it : Ptr → M os ProcessManager) (pm : ProcessManager) (w : World os)
      (command : List Text)
      → asked c ≡ some command
      → new_process y os c use_it pm w ≡ use_it (length w.heap) (with_process command w)
  unfolding new_process
  new_process-some c use_it pm w command e = by_command c.command c.enabled refl refl
    where
      by_command :
          (o : Option (List Text)) (b : Bool)
          → c.command ≡ o
          → c.enabled ≡ b
          → new_process y os c use_it pm w ≡ use_it (length w.heap) (with_process command w)
      by_command none true f g = absurd (cc)
      by_command none false f g = absurd (cc)
      by_command (some command') false f g = absurd (cc)
      by_command (some command') true f g =
          let e' : some command' ≡ some command = (rw (g, f) at e) in
          let same : command' ≡ command = cc in
          rw (f, new_process) (rw (g, new_from_array_lem os command' true w, same) refl)
