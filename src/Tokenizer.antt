-- ===== src/Tokenizer.antt =====
-- src/tokenizer.cpp and src/tokenizer.hpp: a tokenizer that nothing uses yet, whose methods
-- return constants.
use renzoku.Text.{Text, bytes}

pub data TokenType : Type 0 where
  project int float operator grouping_symbol string comment space error : TokenType

-- class Token, with its constructor and the methods `getType` and `getValue`
pub record Token : Type 0 where
  pub type : TokenType
  pub value : Text

unfoldable pub new_token : TokenType → Text → Token
new_token type value = record { type = type; value = value }

unfoldable pub get_type : Token → TokenType
get_type this = this.type

unfoldable pub get_value : Token → Text
get_value this = this.value

-- `getToken` and `next`, which read nothing
unfoldable pub get_token : Token
unfolding new_token bytes
get_token = new_token error (bytes "testing!")

unfoldable pub next : Text
unfolding bytes
next = bytes "RAWR"
