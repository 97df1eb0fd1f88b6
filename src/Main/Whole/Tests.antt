-- ===== src/Main/Whole/Tests.antt =====
-- `main` over a small document and a tree of two directories, with SIGINT in the third round.
use renzoku.Prelude.{refl, ◌≡◌, none, false, true, some, [], ◌∷◌, arith}
use renzoku.World.Does.{Returns}
use renzoku.World.{World, stdout_logger}
use renzoku.Process.Starts.{IsParent}
use renzoku.Watcher.Tree.Tests.{tree_os, tree, tree-IsTree, tree-height}
use renzoku.Config.Watch.{is_map}
use renzoku.Main.{main}
use renzoku.World.Ends.{Ends}
use renzoku.Procman.{empty}
use renzoku.Config.{config_from_file}
use renzoku.Config.Memory.{no_commands, assign_all}
use renzoku.Config.Memory.Assignments.{assignments}
use renzoku.Config.Memory.Document.{IsFreed, held_by, config_from_file-IsFreed}
use renzoku.Config.Plan.{no_plan, plan_of}
use renzoku.Config.Refine.{Follows}
use renzoku.Config.Refine.Document.{IsDocument, config_from_file-Follows}
use renzoku.Main.Refused.{main-refused}
use mathlib.Core.Quot
use renzoku.Config.Refine.Sections.{swapped as swap, sections, config_from_file-sections}
use renzoku.Config.Refine.Unbuilt.{IsUnbuilt, config_from_file-IsUnbuilt}
use renzoku.Main.Example.{
  swapped, keys-HaveOtherNames, watch_key, watch_part, compile_key, program_key, command_part,
  refused_yaml, refused_yaml-IsBounded, plan_of-refused, document, entries, whole_yaml,
  whole_yaml-IsBounded, whole_plan, plan_of-whole, unbuilt_yaml, unbuilt_yaml-IsBounded,
  unbuilt_plan, plan_of-unbuilt,
}
use renzoku.Main.Whole.{IsSetUp, HasRun, main-HasRun}

abbrev fresh_world : World tree_os
fresh_world = record { system = 0; logger = stdout_logger; heap = []; trace = [] }

tree_os-IsParent : IsParent tree_os
tree_os-IsParent s e = cc

whole-IsDocument : IsDocument whole_yaml tree_os document
unfolding is_map
whole-IsDocument = record {
  defined = refl;
  map = refl;
  watch = refl;
  program = refl;
  sections = (refl, (refl, (refl, tt)));
}

whole-IsSetUp : IsSetUp whole_yaml tree_os 2 [] whole_plan (b'r' ∷ []) tree
whole-IsSetUp = record {
  node = _;
  loaded = refl;
  document = whole-IsDocument;
  planned = plan_of-whole;
  commands = ((λ e. cc), (tt, λ e. cc));
  build = _;
  builds = refl;
  run = _;
  runs = refl;
  opens = λ s. refl;
  stays = λ s. refl;
  tree = tree-IsTree;
  deep = tree-height;
}

main-HasRun_example :
    Returns
      (HasRun whole_yaml tree_os 2 [] whole_plan fresh_world)
      (main whole_yaml tree_os 2 (some []) false (false ∷ false ∷ true ∷ []) fresh_world)
main-HasRun_example =
    main-HasRun whole_yaml tree_os whole_yaml-IsBounded tree_os-IsParent (λ s fd. (omega arith, tt))
      2 [] whole_plan (b'r' ∷ []) tree 2 [] fresh_world whole-IsSetUp tt

config_from_file-Follows_example :
    Ends
      (Follows (plan_of whole_yaml (entries document) no_plan) fresh_world)
      (plan_of whole_yaml (entries document) no_plan ≡ none)
      (config_from_file whole_yaml tree_os empty (some []) fresh_world)
config_from_file-Follows_example =
    config_from_file-Follows whole_yaml tree_os whole_yaml-IsBounded [] document fresh_world refl
      whole-IsDocument tt

refused-IsDocument : IsDocument refused_yaml tree_os document
unfolding is_map
refused-IsDocument = record {
  defined = refl;
  map = refl;
  watch = refl;
  program = refl;
  sections = (refl, tt);
}

main-refused_example :
    Ends (λ _ _. ⊥) (Unit {0}) (main refused_yaml tree_os 2 (some []) false (true ∷ []) fresh_world)
main-refused_example =
    main-refused refused_yaml tree_os refused_yaml-IsBounded 2 [] document false (true ∷ [])
      fresh_world refl refused-IsDocument plan_of-refused tt

documents-sections : sections whole_yaml document ≡ sections whole_yaml swapped
documents-sections = Quot.sound (
    swap ((watch_key, watch_part) ∷ []) [] (compile_key, command_part) (program_key, command_part)
      keys-HaveOtherNames refl refl)

config_from_file-sections_example :
    Ends
      (Follows (plan_of whole_yaml (entries swapped) no_plan) fresh_world)
      (plan_of whole_yaml (entries swapped) no_plan ≡ none)
      (config_from_file whole_yaml tree_os empty (some []) fresh_world)
config_from_file-sections_example =
    config_from_file-sections whole_yaml tree_os whole_yaml-IsBounded [] swapped document
      fresh_world refl whole-IsDocument documents-sections tt

config_from_file-IsFreed_example :
    Ends
      (λ c w'.
        IsFreed
          (assign_all (assignments whole_yaml (entries document)) (no_commands, []))
          (held_by c))
      (plan_of whole_yaml (entries document) no_plan ≡ none)
      (config_from_file whole_yaml tree_os empty (some []) fresh_world)
config_from_file-IsFreed_example =
    config_from_file-IsFreed whole_yaml tree_os whole_yaml-IsBounded [] document fresh_world refl
      whole-IsDocument tt

unbuilt-IsDocument : IsDocument unbuilt_yaml tree_os document
unfolding is_map
unbuilt-IsDocument = record {
  defined = refl;
  map = refl;
  watch = refl;
  program = refl;
  sections = (refl, (refl, tt));
}

config_from_file-IsUnbuilt_example :
    Returns
      (λ c w'. IsUnbuilt tree_os c)
      (config_from_file unbuilt_yaml tree_os empty (some []) fresh_world)
config_from_file-IsUnbuilt_example =
    config_from_file-IsUnbuilt unbuilt_yaml tree_os unbuilt_yaml-IsBounded [] document unbuilt_plan
      fresh_world refl unbuilt-IsDocument plan_of-unbuilt refl tt
