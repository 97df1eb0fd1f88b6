-- ===== src/Yaml.antt =====
-- yaml-cpp, which the program only calls: what src/config.cpp uses of `YAML::Node`.
use renzoku.Prelude.{ℕ, Bool, Option, List}
use renzoku.Text.{Text}

pub data NodeType : Type 0 where
  null scalar sequence map : NodeType

-- `none` stands for the exception of a conversion, and of a document that does not parse.
pub record Yaml : Type 1 where
  pub Node : Type 0
  pub load : Text → Option Node
  -- The test of a node as a Boolean.
  pub is_defined : Node → Bool
  pub kind : Node → NodeType
  pub size : Node → ℕ
  -- `node[key]`
  pub lookup : Node → Text → Node
  -- The pairs and the items that `begin()` to `end()` runs over; none where the node has none.
  pub entries : Node → List (Node × Node)
  pub items : Node → List Node
  pub as_string : Node → Option Text
  pub as_bool : Node → Option Bool
