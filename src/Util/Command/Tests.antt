-- ===== src/Util/Command/Tests.antt =====
-- Runs of `parseCommand`, and its theorems at concrete commands.
use renzoku.Prelude.{◌≡◌, List, arith, refl, some, [], ◌∷◌}
use renzoku.Text.{Text, substr, substr_from, c_str}
use renzoku.Util.Command.{parse_command, arguments, scan, round, switch, advance, cut}
use renzoku.Util.Command.Words.{split_words, join}
use renzoku.Util.Command.Refine.{arguments-split_words}
use renzoku.Util.Command.Join.{join-parse_command, arguments-join}
use renzoku.Util.Command.Quotes.{arguments_quoted, arguments_quoted_split}

make_test_runs : parse_command (b'm' ∷ b' ' ∷ b't' ∷ []) ≡ some ((b'm' ∷ []) ∷ (b't' ∷ []) ∷ [])
unfolding parse_command arguments scan round switch advance cut substr substr_from c_str
make_test_runs = refl

-- The command `m t`.
abbrev make_test : Text
make_test = b'm' ∷ b' ' ∷ b't' ∷ []

arguments-split_words_example : arguments make_test ≡ some (split_words make_test)
arguments-split_words_example = arguments-split_words make_test (omega arith)

join-parse_command_example :
    (args : List Text) × (parse_command make_test ≡ some args) × (join args ≡ make_test)
join-parse_command_example = join-parse_command make_test (omega arith) (omega arith)

arguments-join_example :
    arguments (join ((b'm' ∷ []) ∷ (b't' ∷ []) ∷ [])) ≡ some ((b'm' ∷ []) ∷ (b't' ∷ []) ∷ [])
unfolding join
arguments-join_example =
    arguments-join b'm' [] ((b't' ∷ []) ∷ []) ((omega arith), tt) (tt, tt) (omega arith)

-- The command `a"b c"`.
arguments_quoted_example :
    arguments (b'a' ∷ b'"' ∷ b'b' ∷ b' ' ∷ b'c' ∷ b'"' ∷ [])
    ≡ some ((b'a' ∷ b'"' ∷ b'b' ∷ b' ' ∷ b'c' ∷ b'"' ∷ []) ∷ [])
arguments_quoted_example =
    arguments_quoted (b'a' ∷ []) (b'b' ∷ b' ' ∷ b'c' ∷ []) (omega arith, tt) (omega arith)
      (omega arith)

-- The command `a "b cd"`.
arguments_quoted_split_example :
    arguments (b'a' ∷ b' ' ∷ b'"' ∷ b'b' ∷ b' ' ∷ b'c' ∷ b'd' ∷ b'"' ∷ [])
    ≡ some ((b'a' ∷ []) ∷ (b'"' ∷ b'b' ∷ []) ∷ (b'c' ∷ b'd' ∷ b'"' ∷ []) ∷ [])
arguments_quoted_split_example =
    arguments_quoted_split (b'a' ∷ []) (b'b' ∷ []) (b'd' ∷ []) b'c' (omega arith, tt)
      (omega arith, tt) (omega arith, tt) (omega arith)
