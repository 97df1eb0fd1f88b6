-- ===== src/Config.antt =====
-- src/config.cpp and src/config.hpp: class Config, over the nodes of yaml-cpp. A method takes the
-- object's fields and returns their new values.
pub mod Watch
pub mod Reads
pub mod Refine
pub mod Created
pub mod Holds
pub mod Memory
pub mod Commands
pub mod Formats
pub mod Plan
pub mod Order
use renzoku.Prelude.{
  ℕ, Bool, true, false, ◌&&◌, ◌||◌, Option, none, some, List, [], ◌∷◌, ◌++◌, leb, if◌then◌else◌,
}
use renzoku.Text.{Text, bytes, text_eq}
use renzoku.Yaml.{Yaml, NodeType, null, scalar, sequence, map}
use renzoku.World.{Os, Ptr, cerr, wrote, aborts, M, stopped, ◌>>=◌, ◌>>◌, pure, throw, fault, emit}
use renzoku.Log.{debug, log_me}
use renzoku.Log.Printf.{string}
use renzoku.Util.Lowercase.{lowercase, lowercase_r}
use renzoku.Util.Command.{parse_command}
use renzoku.Process.{new_from_array}
use renzoku.Procman.{ProcessManager, set_builder, add_process, set_program, restart_all}
use renzoku.Config.Watch.{WatchConfig, parse_watcher, convert, is_map, is_scalar, no_watch}

-- struct iCommandConfig, with the NULL of `command` as `none`. The subclasses add nothing but
-- `ignore_states` of the test section, which no code fills or reads.
pub record CommandConfig : Type 0 where
  pub enabled : Bool
  pub command : Option (List Text)

abbrev pub no_command : CommandConfig
no_command = record { enabled = true; command = none }

-- The fields of a Config, with the manager that its pointer refers to.
pub record Config : Type 0 where
  pub watch : WatchConfig
  pub compile : CommandConfig
  pub test : CommandConfig
  pub program : CommandConfig
  pub procman : ProcessManager

abbrev pub empty_config : ProcessManager → Config
empty_config pm = record {
  watch = no_watch;
  compile = no_command;
  test = no_command;
  program = no_command;
  procman = pm;
}

abbrev pub get_watch_config : Config → WatchConfig
get_watch_config this = this.watch

abbrev pub get_compile_config : Config → CommandConfig
get_compile_config this = this.compile

abbrev pub get_test_config : Config → CommandConfig
get_test_config this = this.test

abbrev pub get_program_config : Config → CommandConfig
get_program_config this = this.program

module _ (y : Yaml) (os : Os) where
  -- `assert`; the build does not define `NDEBUG`.
  pub assert : Bool → M os (Unit {0})
  assert true = pure tt
  assert false = stopped aborts

  pub set_command : Text → CommandConfig → M os CommandConfig
  set_command value c = elim (parse_command value) [
    | none ↦ fault
    | some arguments ↦ pure (record c { command = some arguments })
  ]

  -- One pair of a command section.
  pub command_entry : y.Node → y.Node → CommandConfig → M os CommandConfig
  command_entry k v c = do
    raw ← convert os (y.as_string k)
    let key = lowercase raw
    if text_eq key (bytes "command")
        then (if is_scalar y v then read_command else pure c)
        else if text_eq key (bytes "enabled")
        then read_enabled
        else pure c
    where
      read_command : M os CommandConfig
      read_command = do
        value ← convert os (y.as_string v)
        log_me os debug (bytes "Proc: %s") (string value ∷ [])
        set_command value c

      read_enabled : M os CommandConfig
      read_enabled = do on ← convert os (y.as_bool v); pure (record c { enabled = on })

  pub command_entries : List (y.Node × y.Node) → CommandConfig → M os CommandConfig
  command_entries [] c = pure c
  command_entries ((k, v) ∷ rest) c = do d ← command_entry k v c; command_entries rest d

  -- `parseCommand`
  pub parse_section : y.Node → CommandConfig → M os CommandConfig
  parse_section node c =
      if leb 1 (y.size node) && is_map y node then command_entries (y.entries node) c else pure c

  -- `if(config.command && config.enabled) … new Process(logger, config.command, true)`
  pub new_process :
      CommandConfig → (Ptr → M os ProcessManager) → ProcessManager → M os ProcessManager
  new_process c use_it pm = elim c.command [
    | none ↦ pure pm
    | some command ↦
        if c.enabled then (do p ← new_from_array os command true; use_it p) else pure pm
  ]

  abbrev guard_unset : Option Ptr → Text → M os (Unit {0})
  guard_unset none message = pure tt
  guard_unset (some p) message = throw message

  pub read_program : y.Node → Config → M os Config
  read_program node c = do
    section ← parse_section node c.program
    guard_unset c.procman.program (bytes "Program already set!")
    pm ← new_process section (λ p. set_program os p c.procman) c.procman
    pure (record c { program = section; procman = pm })

  pub read_test : y.Node → Config → M os Config
  read_test node c = do
    section ← parse_section node c.test
    pm ← new_process section (λ p. add_process os p c.procman) c.procman
    pure (record c { test = section; procman = pm })

  pub read_compile : y.Node → Config → M os Config
  read_compile node c = do
    section ← parse_section node c.compile
    guard_unset c.procman.build_step (bytes "BuildStage already set!")
    pm ← new_process section (λ p. set_builder os p c.procman) c.procman
    pure (record c { compile = section; procman = pm })

  pub read_watch : y.Node → Config → M os Config
  read_watch node c = do watch ← parse_watcher y os node c.watch; pure (record c { watch = watch })

  pub unknown_section : Text → M os Config
  unknown_section key = do
    emit (wrote cerr (bytes "Found an error! -" ++ (key ++ bytes "\n")))
    throw (bytes "Found a config error!")

  -- The chain of comparisons in the loop of `parseConfig`.
  pub read_section : Text → y.Node → Config → M os Config
  read_section key node c =
      if text_eq key (bytes "watch")
      then read_watch node c
      else if text_eq key (bytes "program")
      then read_program node c
      else if text_eq key (bytes "test")
      then read_test node c
      else if text_eq key (bytes "compile")
      then read_compile node c
      else unknown_section key

  pub config_entry : y.Node → y.Node → Config → M os Config
  config_entry k v c = do
    assert (is_map y v)
    raw ← convert os (y.as_string k)
    read_section (lowercase_r raw) v c

  pub config_entries : List (y.Node × y.Node) → Config → M os Config
  config_entries [] c = pure c
  config_entries ((k, v) ∷ rest) c = do d ← config_entry k v c; config_entries rest d

  -- `parseConfig` on the loaded document.
  pub read_document : y.Node → Config → M os Config
  read_document node c = do
    assert (y.is_defined node)
    assert (is_map y node)
    assert (is_map y node)
    assert (y.is_defined (y.lookup node (bytes "watch")))
    assert (y.is_defined (y.lookup node (bytes "program")))
    config_entries (y.entries node) c

  pub parse_config : Text → Config → M os Config
  parse_config file c = do node ← convert os (y.load file); read_document node c

  -- The constructor over a stream, and the one that opens `renzoku.conf`: `file` is what stands
  -- in it.
  pub config_from_stream : ProcessManager → Text → M os Config
  config_from_stream pm file = parse_config file (empty_config pm)

  pub find_config : Option Text → M os Text
  find_config none = throw (bytes "Could not open file")
  find_config (some file) = pure file

  pub config_from_file : ProcessManager → Option Text → M os Config
  config_from_file pm opened = do file ← find_config opened; config_from_stream pm file

  -- `restartProcesses`
  pub restart_processes : Config → M os (Unit {0})
  restart_processes c = restart_all os c.procman
