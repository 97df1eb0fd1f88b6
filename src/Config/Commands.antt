-- ===== src/Config/Commands.antt =====
-- `Config::parseCommand` of src/config.cpp against the command section of a plan.
use renzoku.Prelude.{◌≡◌, ◌<◌, some, List, [], ◌∷◌, map, length}
use renzoku.Text.{Text, bytes, text_eq, npos, c_str}
use renzoku.Yaml.{Yaml}
use renzoku.World.{Os}
use renzoku.Util.Command.Words.{split_words}
use renzoku.Util.Command.Join.{parse_command-words}
use renzoku.Util.Lowercase.{lowercase}
use renzoku.Log.{debug}
use renzoku.Log.Leaves.{Leaves-log_me}
use renzoku.Config.Formats.{proc-Fits}
use renzoku.Config.Reads.{Reads, Reads-bind, Reads-then, Reads-pure, Reads-if}
use renzoku.Config.Plan.{setting, settings, command_section}
use renzoku.Config.Watch.{is_scalar}
use renzoku.Config.Watch.Reads.{Reads-convert}
use renzoku.Config.{CommandConfig, set_command, command_entry, command_entries, parse_section}

-- The texts of a document are shorter than `npos`.
abbrev pub IsBounded : Yaml → Type 0
IsBounded y = (node : y.Node) (t : Text) → y.as_string node ≡ some t → length t < npos

module _ (y : Yaml) (os : Os) (bounded : IsBounded y) where
  Reads-set_command :
      (t : Text) (c : CommandConfig)
      → length t < npos
      → Reads
          (some (record c { command = some (map c_str (split_words t)) }))
          (set_command y os t c)
  unfolding set_command
  Reads-set_command t c short = rw (parse_command-words t short, set_command) (Reads-pure _)

  Reads-command_entry :
      (k v : y.Node) (c : CommandConfig) → Reads (setting y (k, v) c) (command_entry y os k v c)
  unfolding command_entry setting
  Reads-command_entry k v c = Reads-bind (Reads-convert os (y.as_string k)) λ raw _.
      Reads-if (text_eq (lowercase raw) (bytes "command"))
        (λ _.
          Reads-if (is_scalar y v)
            (λ _. Reads-bind (Reads-convert os (y.as_string v)) λ value e.
              Reads-then (Leaves-log_me debug _ _ (proc-Fits value))
                (Reads-set_command value c (bounded v value e)))
            (λ _. Reads-pure c))
        λ _.
          Reads-if (text_eq (lowercase raw) (bytes "enabled"))
            (λ _. Reads-bind (Reads-convert os (y.as_bool v)) λ on _. Reads-pure _)
            (λ _. Reads-pure c)

  Reads-command_entries :
      (entries : List (y.Node × y.Node)) (c : CommandConfig)
      → Reads (settings y entries c) (command_entries y os entries c)
  unfolding command_entries settings
  Reads-command_entries [] c = Reads-pure c
  Reads-command_entries ((k, v) ∷ rest) c =
      Reads-bind (Reads-command_entry k v c) (λ d _. Reads-command_entries rest d)

  pub Reads-parse_section :
      (node : y.Node) (c : CommandConfig)
      → Reads (command_section y node c) (parse_section y os node c)
  unfolding parse_section command_section
  Reads-parse_section node c =
      Reads-if _ (λ _. Reads-command_entries (y.entries node) c) (λ _. Reads-pure c)
