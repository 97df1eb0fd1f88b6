-- ===== src/Main/Example.antt =====
-- A document with three sections for the tests of `main`: the watch section `filter: ["*.c"]`,
-- and `command: make` for the build step and for the program.
use renzoku.Prelude.{◌≡◌, ◌<◌, refl, Option, true, none, some, List, [], ◌∷◌, length, arith}
use renzoku.Text.{Text, text_eq, bytes, c_str, npos}
use renzoku.Yaml.{Yaml, NodeType, scalar, sequence, map}
use renzoku.Util.Command.Words.{split_words, words}
use renzoku.Util.Lowercase.{lowercase, lowercase_r, tolower}
use renzoku.Config.{CommandConfig}
use renzoku.Config.Order.{section_name, compile_name, program_name, HaveOtherNames}
use renzoku.Config.Commands.{IsBounded}
use renzoku.Config.Plan.{
  Plan, no_plan, setting, settings, command_section, texts, names, watch_setting, watch_settings,
  watch_section, program_section, compile_section, section, plan_of,
}
use renzoku.Config.Watch.{asterisk_count, is_map, is_sequence, is_scalar}

pub data Node : Type 0 where
  document : Node
  watch_part : Node
  command_part : Node
  filters : Node
  pattern : Node
  make : Node
  watch_key : Node
  compile_key : Node
  program_key : Node
  filter_key : Node
  command_key : Node
  -- The same document with the last two sections in the other order.
  swapped : Node

abbrev kind : Node → NodeType
kind document = map
kind swapped = map
kind watch_part = map
kind command_part = map
kind filters = sequence
kind _ = scalar

abbrev text_of : Node → Text
text_of pattern = b'*' ∷ b'.' ∷ b'c' ∷ []
text_of make = b'm' ∷ b'a' ∷ b'k' ∷ b'e' ∷ []
text_of watch_key = b'w' ∷ b'a' ∷ b't' ∷ b'c' ∷ b'h' ∷ []
text_of compile_key = b'c' ∷ b'o' ∷ b'm' ∷ b'p' ∷ b'i' ∷ b'l' ∷ b'e' ∷ []
text_of program_key = b'p' ∷ b'r' ∷ b'o' ∷ b'g' ∷ b'r' ∷ b'a' ∷ b'm' ∷ []
text_of filter_key = b'f' ∷ b'i' ∷ b'l' ∷ b't' ∷ b'e' ∷ b'r' ∷ []
text_of command_key = b'c' ∷ b'o' ∷ b'm' ∷ b'm' ∷ b'a' ∷ b'n' ∷ b'd' ∷ []
text_of _ = []

abbrev as_string : Node → Option Text
as_string document = none
as_string swapped = none
as_string watch_part = none
as_string command_part = none
as_string filters = none
as_string n = some (text_of n)

abbrev pub entries : Node → List (Node × Node)
entries document =
    (watch_key, watch_part) ∷ (compile_key, command_part) ∷ (program_key, command_part) ∷ []
entries swapped =
    (watch_key, watch_part) ∷ (program_key, command_part) ∷ (compile_key, command_part) ∷ []
entries watch_part = (filter_key, filters) ∷ []
entries command_part = (command_key, make) ∷ []
entries _ = []

abbrev pub unbuilt_entries : Node → List (Node × Node)
unbuilt_entries document = (watch_key, watch_part) ∷ (program_key, command_part) ∷ []
unbuilt_entries n = entries n

abbrev items : Node → List Node
items filters = pattern ∷ []
items _ = []

abbrev pub whole_yaml : Yaml
whole_yaml = record {
  Node = Node;
  load = λ s. some document;
  is_defined = λ node. true;
  kind = kind;
  size = λ node. 1;
  lookup = λ node key. watch_part;
  entries = entries;
  items = items;
  as_string = as_string;
  as_bool = λ node. none;
}

text_of-short : (n : Node) → length (text_of n) < npos
text_of-short document = omega arith
text_of-short swapped = omega arith
text_of-short watch_part = omega arith
text_of-short command_part = omega arith
text_of-short filters = omega arith
text_of-short pattern = omega arith
text_of-short make = omega arith
text_of-short watch_key = omega arith
text_of-short compile_key = omega arith
text_of-short program_key = omega arith
text_of-short filter_key = omega arith
text_of-short command_key = omega arith

short : (n : Node) (t : Text) → some (text_of n) ≡ some t → length t < npos
short n t e = let same : text_of n ≡ t = cc in rw (← same) (text_of-short n)

pub whole_yaml-IsBounded : IsBounded whole_yaml
whole_yaml-IsBounded document t e = absurd (cc)
whole_yaml-IsBounded swapped t e = absurd (cc)
whole_yaml-IsBounded watch_part t e = absurd (cc)
whole_yaml-IsBounded command_part t e = absurd (cc)
whole_yaml-IsBounded filters t e = absurd (cc)
whole_yaml-IsBounded pattern t e = short pattern t e
whole_yaml-IsBounded make t e = short make t e
whole_yaml-IsBounded watch_key t e = short watch_key t e
whole_yaml-IsBounded compile_key t e = short compile_key t e
whole_yaml-IsBounded program_key t e = short program_key t e
whole_yaml-IsBounded filter_key t e = short filter_key t e
whole_yaml-IsBounded command_key t e = short command_key t e

abbrev make_command : CommandConfig
make_command = record { enabled = true; command = some ((b'm' ∷ b'a' ∷ b'k' ∷ b'e' ∷ []) ∷ []) }

abbrev pub whole_plan : Plan
whole_plan = record no_plan {
  watch = record { filters = (b'*' ∷ b'.' ∷ b'c' ∷ []) ∷ []; includes = []; excludes = [] };
  compile = make_command;
  program = make_command;
  build = make_command.command;
  run = make_command.command;
}

pub plan_of-whole : plan_of whole_yaml (entries document) no_plan ≡ some whole_plan
unfolding setting settings command_section texts names watch_setting watch_settings watch_section
    program_section compile_section section plan_of text_eq bytes c_str lowercase lowercase_r
    tolower split_words words asterisk_count is_map is_sequence is_scalar
plan_of-whole = refl

-- A document with a section of an unknown name.
abbrev pub refused_yaml : Yaml
refused_yaml = record whole_yaml { entries = λ node. (filter_key, watch_part) ∷ [] }

pub refused_yaml-IsBounded : IsBounded refused_yaml
refused_yaml-IsBounded = whole_yaml-IsBounded

pub plan_of-refused : plan_of refused_yaml ((filter_key, watch_part) ∷ []) no_plan ≡ none
unfolding section plan_of text_eq bytes lowercase lowercase_r tolower
plan_of-refused = refl

compile_key-compile_name : section_name (lowercase_r (text_of compile_key)) ≡ compile_name
unfolding section_name text_eq bytes lowercase lowercase_r tolower
compile_key-compile_name = refl

program_key-program_name : section_name (lowercase_r (text_of program_key)) ≡ program_name
unfolding section_name text_eq bytes lowercase lowercase_r tolower
program_key-program_name = refl

pub keys-HaveOtherNames : HaveOtherNames whole_yaml compile_key program_key
keys-HaveOtherNames raw raw' e f =
    let first : text_of compile_key ≡ raw = cc in
    let second : text_of program_key ≡ raw' = cc in
    rw (← first, ← second, compile_key-compile_name, program_key-program_name) (λ same. cc)

-- The document without its compile section.
abbrev pub unbuilt_yaml : Yaml
unbuilt_yaml = record whole_yaml { entries = unbuilt_entries }

pub unbuilt_yaml-IsBounded : IsBounded unbuilt_yaml
unbuilt_yaml-IsBounded = whole_yaml-IsBounded

abbrev pub unbuilt_plan : Plan
unbuilt_plan = record whole_plan { compile = no_plan.compile; build = none }

pub plan_of-unbuilt : plan_of unbuilt_yaml (unbuilt_entries document) no_plan ≡ some unbuilt_plan
unfolding setting settings command_section texts names watch_setting watch_settings watch_section
    program_section compile_section section plan_of text_eq bytes c_str lowercase lowercase_r
    tolower split_words words asterisk_count is_map is_sequence is_scalar
plan_of-unbuilt = refl
