-- ===== src/Config/Watch/Tests.antt =====
-- The watch section of a small document, `filter: ["*.h"]`.
use renzoku.Prelude.{Option, true, none, some, List, [], ◌∷◌}
use renzoku.Text.{Text}
use renzoku.Yaml.{Yaml, NodeType, scalar, sequence, map}
use renzoku.World.Traces.{Traces}
use renzoku.World.Example.{small_os}
use renzoku.Config.Watch.{no_watch, parse_watcher}
use renzoku.Config.Watch.Filters.{Checked, parse_watcher-IsChecked}

-- The nodes of a document with a section of the name `test`; a text is a node too.
pub data Node : Type 0 where
  document : Node
  section : Node
  filters : Node
  text : Text → Node

abbrev pub kind : Node → NodeType
kind document = map
kind section = map
kind filters = sequence
kind (text s) = scalar

abbrev pub as_string : Node → Option Text
as_string (text s) = some s
as_string _ = none

abbrev pub entries : Node → List (Node × Node)
entries document = (text (b't' ∷ b'e' ∷ b's' ∷ b't' ∷ []), section) ∷ []
entries _ = (text (b'f' ∷ b'i' ∷ b'l' ∷ b't' ∷ b'e' ∷ b'r' ∷ []), filters) ∷ []

abbrev pub small_yaml : Yaml
small_yaml = record {
  Node = Node;
  load = λ s. some document;
  is_defined = λ node. true;
  kind = kind;
  size = λ node. 1;
  lookup = λ node key. filters;
  entries = entries;
  items = λ node. text (b'*' ∷ b'.' ∷ b'h' ∷ []) ∷ [];
  as_string = as_string;
  as_bool = λ node. none;
}

parse_watcher-IsChecked_example :
    Traces Checked (parse_watcher small_yaml small_os section no_watch)
parse_watcher-IsChecked_example = parse_watcher-IsChecked small_yaml small_os section no_watch tt
