-- ===== src/Config/Plan.antt =====
-- What a config file asks for, as src/config.cpp takes it, without processes and their addresses:
-- the commands to build with, to test with and to run, and the section of the watcher. `none`
-- stands for an exception.
use renzoku.Prelude.{
  Bool, true, not, ◌&&◌, Option, none, some, List, [], ◌∷◌, ◌++◌, map, leb, ltb, if◌then◌else◌,
}
use renzoku.Text.{Text, bytes, text_eq, c_str}
use renzoku.Yaml.{Yaml}
use renzoku.Util.Command.{◌>>=◌}
use renzoku.Util.Command.Words.{split_words}
use renzoku.Util.Lowercase.{lowercase, lowercase_r}
use renzoku.Config.{CommandConfig, no_command}
use renzoku.Config.Watch.{WatchConfig, no_watch, asterisk_count, is_map, is_sequence, is_scalar}

-- The sections as they stand, and what they have asked for.
pub record Plan : Type 0 where
  pub watch : WatchConfig
  pub compile : CommandConfig
  pub test : CommandConfig
  pub program : CommandConfig
  pub build : Option (List Text)
  pub tests : List (List Text)
  pub run : Option (List Text)

abbrev pub no_plan : Plan
no_plan = record {
  watch = no_watch;
  compile = no_command;
  test = no_command;
  program = no_command;
  build = none;
  tests = [];
  run = none;
}

-- The command of a section, if it is to be run.
abbrev pub asked : CommandConfig → Option (List Text)
asked c = if c.enabled then c.command else none

-- A second one is refused.
abbrev pub once : Option (List Text) → Option (List Text) → Option (Option (List Text))
once none next = some next
once (some first) next = none

-- No filter has two asterisks.
abbrev pub all_checked : List Text → Bool
all_checked [] = true
all_checked (t ∷ ts) = not (ltb 1 (asterisk_count 0 t)) && all_checked ts

module _ (y : Yaml) where
  unfoldable pub setting : y.Node × y.Node → CommandConfig → Option CommandConfig
  setting (k, v) c = do
    raw ← y.as_string k
    if text_eq (lowercase raw) (bytes "command")
        then (if is_scalar y v
            then (do
              value ← y.as_string v
              some (record c { command = some (map c_str (split_words value)) }))
            else some c)
        else if text_eq (lowercase raw) (bytes "enabled")
        then (do on ← y.as_bool v; some (record c { enabled = on }))
        else some c

  unfoldable pub settings : List (y.Node × y.Node) → CommandConfig → Option CommandConfig
  settings [] c = some c
  settings (entry ∷ rest) c = do d ← setting entry c; settings rest d

  unfoldable pub command_section : y.Node → CommandConfig → Option CommandConfig
  command_section node c =
      if leb 1 (y.size node) && is_map y node then settings (y.entries node) c else some c

  unfoldable pub texts : List y.Node → Option (List Text)
  texts [] = some []
  texts (item ∷ rest) = do t ← y.as_string item; ts ← texts rest; some (t ∷ ts)

  -- A list of names or one name.
  unfoldable pub names : y.Node → Option (List Text)
  names v =
      if is_sequence y v
      then texts (y.items v)
      else if is_scalar y v
      then texts (v ∷ [])
      else some []

  unfoldable pub watch_setting : y.Node × y.Node → WatchConfig → Option WatchConfig
  watch_setting (k, v) wc = do
    raw ← y.as_string k
    if text_eq (lowercase raw) (bytes "filter")
        then (do
          ts ← texts (y.items v)
          if all_checked ts then some (record wc { filters = wc.filters ++ ts }) else none)
        else if text_eq (lowercase raw) (bytes "include")
        then (do ts ← names v; some (record wc { includes = wc.includes ++ ts }))
        else if text_eq (lowercase raw) (bytes "exclude")
        then (do ts ← names v; some (record wc { excludes = wc.excludes ++ ts }))
        else (do value ← y.as_string v; some wc)

  unfoldable pub watch_settings : List (y.Node × y.Node) → WatchConfig → Option WatchConfig
  watch_settings [] wc = some wc
  watch_settings (entry ∷ rest) wc = do next ← watch_setting entry wc; watch_settings rest next

  unfoldable pub watch_section : y.Node → WatchConfig → Option WatchConfig
  watch_section node wc =
      if leb 1 (y.size node) && is_map y node then watch_settings (y.entries node) wc else some wc

  unfoldable pub program_section : y.Node → Plan → Option Plan
  program_section node plan = do
    c ← command_section node plan.program
    next ← once plan.run (asked c)
    some (record plan { program = c; run = next })

  unfoldable pub compile_section : y.Node → Plan → Option Plan
  compile_section node plan = do
    c ← command_section node plan.compile
    next ← once plan.build (asked c)
    some (record plan { compile = c; build = next })

  unfoldable pub test_section : y.Node → Plan → Option Plan
  test_section node plan = do
    c ← command_section node plan.test
    some (record plan {
      test = c;
      tests = plan.tests ++ (elim (asked c) [ none ↦ [] | some command ↦ command ∷ [] ]);
    })

  unfoldable pub section : y.Node × y.Node → Plan → Option Plan
  section (k, v) plan = do
    raw ← y.as_string k
    if text_eq (lowercase_r raw) (bytes "watch")
        then (do wc ← watch_section v plan.watch; some (record plan { watch = wc }))
        else if text_eq (lowercase_r raw) (bytes "program")
        then program_section v plan
        else if text_eq (lowercase_r raw) (bytes "test")
        then test_section v plan
        else if text_eq (lowercase_r raw) (bytes "compile")
        then compile_section v plan
        else none

  -- The plan behind the sections.
  unfoldable pub plan_of : List (y.Node × y.Node) → Plan → Option Plan
  plan_of [] plan = some plan
  plan_of (entry ∷ rest) plan = do next ← section entry plan; plan_of rest next
