-- ===== src/UnitTests/Config.antt =====
-- tests/test_config.cpp: the document of the test, and what it requires of its Config.
pub mod Document
use renzoku.Prelude.{◌≡◌, refl, ap, ◌∙◌, true, false, none, some, [], ◌∷◌, length, get_elem?}
use renzoku.Text.{text_eq, bytes, c_str}
use renzoku.World.{World, stdout_logger}
use renzoku.World.Ends.{Ends, Ends-map}
use renzoku.World.Example.{small_os}
use renzoku.Util.Command.Words.{split_words, words}
use renzoku.Util.Lowercase.{lowercase, lowercase_r, tolower}
use renzoku.Procman.{empty}
use renzoku.Config.{
  Config, get_watch_config, get_compile_config, get_test_config, get_program_config,
  config_from_file,
}
use renzoku.Config.Plan.{
  Plan, no_plan, setting, settings, command_section, texts, names, watch_setting, watch_settings,
  watch_section, program_section, compile_section, test_section, section, plan_of,
}
use renzoku.Config.Watch.{asterisk_count, is_map, is_sequence, is_scalar}
use renzoku.Config.Refine.{Follows}
use renzoku.Config.Refine.Document.{IsDocument, config_from_file-Follows}
use renzoku.UnitTests.Config.Document.{node_at, table, test_yaml, test_yaml-IsBounded}

abbrev test_plan : Plan
test_plan = record {
  watch = record {
    filters =
        bytes "*.cpp" ∷ bytes "*.hpp" ∷ bytes "*.c" ∷ bytes "*.h" ∷ bytes "include/*.hxx" ∷ [];
    includes = bytes "Makefile" ∷ [];
    excludes = bytes "src/Config.cpp" ∷ [];
  };
  compile = record { enabled = true; command = some (bytes "make" ∷ []) };
  test = record { enabled = false; command = some (bytes "make" ∷ bytes "test" ∷ []) };
  program = record { enabled = true; command = some (bytes "./bin/program" ∷ bytes "--help" ∷ []) };
  build = some (bytes "make" ∷ []);
  tests = [];
  run = some (bytes "./bin/program" ∷ bytes "--help" ∷ []);
}

plan_of-test : plan_of test_yaml ((node_at table 0).pairs) no_plan ≡ some test_plan
unfolding setting settings command_section texts names watch_setting watch_settings watch_section
    program_section compile_section test_section section plan_of text_eq bytes c_str lowercase
    lowercase_r tolower split_words words asterisk_count is_map is_sequence is_scalar
plan_of-test = refl

-- What the test requires, in its order.
record IsAsRequired (c : Config) : Type 0 where
  filters : length (get_watch_config c).filters ≡ 5
  front : get_elem? (get_watch_config c).filters 0 ≡ some (bytes "*.cpp")
  back : get_elem? (get_watch_config c).filters 4 ≡ some (bytes "include/*.hxx")
  include : (get_watch_config c).includes ≡ bytes "Makefile" ∷ []
  exclude : (get_watch_config c).excludes ≡ bytes "src/Config.cpp" ∷ []
  compile : get_compile_config c ≡ record { enabled = true; command = some (bytes "make" ∷ []) }
  test :
      get_test_config c
      ≡ record { enabled = false; command = some (bytes "make" ∷ bytes "test" ∷ []) }
  program :
      get_program_config c
      ≡ record { enabled = true; command = some (bytes "./bin/program" ∷ bytes "--help" ∷ []) }

test_plan-IsAsRequired :
    (c : Config)
    → c.watch ≡ test_plan.watch
    → c.compile ≡ test_plan.compile
    → c.test ≡ test_plan.test
    → c.program ≡ test_plan.program
    → IsAsRequired c
test_plan-IsAsRequired c w p t r = record {
  filters = rw w refl;
  front = rw w refl;
  back = rw w refl;
  include = rw w refl;
  exclude = rw w refl;
  compile = p;
  test = t;
  program = r;
}

test_yaml-IsDocument : IsDocument test_yaml small_os 0
unfolding is_map
test_yaml-IsDocument = record {
  defined = refl;
  map = refl;
  watch = refl;
  program = refl;
  sections = (refl, (refl, (refl, (refl, tt))));
}

abbrev fresh_world : World small_os
fresh_world = record { system = 0; logger = stdout_logger; heap = []; trace = [] }

-- The test passes on the model: the constructor returns a Config as it is required.
test_config :
    Ends
      (λ c w'. IsAsRequired c)
      ⊥
      (config_from_file test_yaml small_os empty (some []) fresh_world)
test_config = Ends-map required refused (
    config_from_file-Follows test_yaml small_os test_yaml-IsBounded [] 0 fresh_world refl
      test_yaml-IsDocument tt)
  where
    required :
        (c : Config) (w' : World small_os)
        → Follows (plan_of test_yaml ((node_at table 0).pairs) no_plan) fresh_world c w'
        → IsAsRequired c
    required c w' f =
        let same : f.plan ≡ test_plan = (let e = plan_of-test in let g = f.planned in cc) in
        test_plan-IsAsRequired c (f.holds.watch ∙ ap (λ plan. plan.watch) same)
          (f.holds.compile ∙ ap (λ plan. plan.compile) same)
          (f.holds.test ∙ ap (λ plan. plan.test) same)
          (f.holds.program ∙ ap (λ plan. plan.program) same)

    refused : plan_of test_yaml ((node_at table 0).pairs) no_plan ≡ none → ⊥
    refused e = let f = plan_of-test in absurd (cc)
