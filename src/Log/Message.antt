-- ===== src/Log/Message.antt =====
-- The text of a message of src/log.cpp, and what `vsnprintf` makes of it.
use renzoku.Prelude.{ℕ, ◌≡◌, ap, sym, ◌∙◌, some, List, [], ◌++◌, arith, append-nil, All-append}
use renzoku.Text.{Text, bytes, c_str}
use renzoku.World.{Clock, Logger, stdout_logger, file_logger}
use renzoku.Log.{
  LogLevel, debug, info, success, warning, error, critical, reset, log_colors, style, date,
  final_format, create_message,
}
use renzoku.Log.Printf.{Arg, printf, to_base}
use renzoku.Log.Printf.Laws.{NoPercent, printf-append, to_base-NoPercent}

style-NoPercent : (level : LogLevel) → NoPercent (style level).0 × NoPercent (style level).1
unfolding style
style-NoPercent debug = (omega arith, omega arith)
style-NoPercent info = (omega arith, omega arith)
style-NoPercent success = (omega arith, omega arith)
style-NoPercent warning = (omega arith, omega arith)
style-NoPercent error = (omega arith, omega arith)
style-NoPercent critical = (omega arith, omega arith)

append-NoPercent : (s t : Text) → NoPercent s → NoPercent t → NoPercent (s ++ t)
append-NoPercent = All-append _

-- A number of the date with the separator behind it.
part-NoPercent :
    (n : ℕ) (s t : Text) → NoPercent s → NoPercent t → NoPercent (to_base 10 n ++ (s ++ t))
part-NoPercent n s t hs ht =
    append-NoPercent (to_base 10 n) (s ++ t) (to_base-NoPercent 10 n) (append-NoPercent s t hs ht)

date-NoPercent : (now : Clock) → NoPercent (date now)
unfolding date bytes
date-NoPercent now = append-NoPercent (bytes "[") _ (omega arith) (
    part-NoPercent _ (bytes "-") _ (omega arith) (
      part-NoPercent _ (bytes "-") _ (omega arith) (
        part-NoPercent _ (bytes " ") _ (omega arith) (
          part-NoPercent _ (bytes ":") _ (omega arith) (
            part-NoPercent _ (bytes ":") _ (omega arith) (
              append-NoPercent (to_base 10 now.tm_sec) (bytes "] ")
                (to_base-NoPercent 10 now.tm_sec) (omega arith)))))))

-- The format with these arguments prints `out`, whatever plain text follows it.
abbrev pub PrintsAs : Text → List Arg → Text → Type 0
PrintsAs format args out =
    (rest : Text) → NoPercent rest → printf (format ++ rest) args ≡ some (out ++ rest)

pub printf-NoPercent : (t : Text) → NoPercent t → printf t [] ≡ some t
unfolding printf
printf-NoPercent t h =
    ap (λ s. printf s []) (sym (append-nil t)) ∙ printf-append t [] [] h ∙ ap some (append-nil t)

coloured-end : NoPercent (log_colors reset ++ bytes "\n")
unfolding log_colors bytes
coloured-end = omega arith

plain-end : NoPercent (bytes "\n")
unfolding bytes
plain-end = omega arith

-- The message is the decorated text that the format alone prints: the colours or the date, the
-- prefix and the end of the line never act as conversions, for both loggers and every level.
pub create_message-PrintsAs :
    (logger : Logger) (now : Clock) (level : LogLevel) (format out : Text) (args : List Arg)
    → PrintsAs (c_str format) args out
    → create_message logger now level format args ≡ some (final_format logger now level out)
unfolding create_message final_format
create_message-PrintsAs stdout_logger now level format out args h =
    printf-append (style level).0 _ args (style-NoPercent level).0
    ∙ rw (printf-append (style level).1 _ args (style-NoPercent level).1, h _ coloured-end)
create_message-PrintsAs file_logger now level format out args h =
    printf-append (date now) _ args (date-NoPercent now)
    ∙ rw (printf-append (style level).1 _ args (style-NoPercent level).1, h _ plain-end)

-- A format with no conversion prints itself.
pub plain_PrintsAs : (t : Text) → NoPercent t → PrintsAs t [] t
plain_PrintsAs t h rest k = printf-NoPercent (t ++ rest) (append-NoPercent t rest h k)
