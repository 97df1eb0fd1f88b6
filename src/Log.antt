-- ===== src/Log.antt =====
-- src/log.cpp and src/log.hpp: levels, colours, the formatted message, and where it is printed.
pub mod Printf
pub mod Message
pub mod Returns
pub mod Quiet
pub mod Leaves
pub mod Clocked
pub mod Unread
pub mod Tests
use Prim.Native.String.{String}
use renzoku.Prelude.{
  ℕ, pos, ◌+◌, Bool, true, false, Option, none, some, List, [], ◌∷◌, ◌++◌, ltb, if◌then◌else◌,
}
use renzoku.Text.{Text, bytes, c_str}
use renzoku.World.{
  Os, Clock, Logger, stdout_logger, file_logger, Stream, cout, cerr, log_file, wrote, M, ◌>>=◌,
  fault, emit, pure, done, throw,
}
use renzoku.Log.Printf.{Arg, string, signed, unsigned, printf, to_base}

pub data LogLevel : Type 0 where
  debug info success warning error critical : LogLevel

-- enum LOG_COLORS with the array LogColors
pub data LogColor : Type 0 where
  reset grey red green yellow : LogColor

escape : String → Text
unfolding bytes
escape sequence = 27 ∷ bytes sequence

unfoldable pub log_colors : LogColor → Text
unfolding escape
log_colors reset = escape "[0m"
log_colors grey = escape "[1;30m"
log_colors red = escape "[0;31m"
log_colors green = escape "[0;32m"
log_colors yellow = escape "[0;33m"

-- The protected field `colors`, as the constructors of the two loggers set it.
abbrev pub colors : Logger → Bool
colors stdout_logger = true
colors file_logger = false

-- `if(color.empty()) color = …`
abbrev set_color : Text → LogColor → Text
set_color [] c = log_colors c
set_color (x ∷ color) c = x ∷ color

-- The `switch` of `createMessage`, one function for each place that a `case` falls through to.
style_success : Text → Text × Text
style_success color = (set_color color green, bytes "=> ")

style_error : Text → Text × Text
style_error color = (set_color color red, bytes "=> ")

unfoldable pub style : LogLevel → Text × Text
unfolding style_success style_error log_colors bytes
style debug = (set_color [] grey, bytes " -> ")
style info = style_success (set_color [] grey)
style success = style_success []
style warning = style_error (set_color [] yellow)
style error = style_error []
style critical = style_error []

-- The date in front of a line that has no colours.
unfoldable pub date : Clock → Text
date now =
    bytes "["
    ++ (to_base 10 (now.tm_year + 1900)
        ++ (bytes "-"
            ++ (to_base 10 (now.tm_mon + 1)
                ++ (bytes "-"
                    ++ (to_base 10 now.tm_mday
                        ++ (bytes " "
                            ++ (to_base 10 now.tm_hour
                                ++ (bytes ":"
                                    ++ (to_base 10 now.tm_min
                                        ++ (bytes ":"
                                            ++ (to_base 10 now.tm_sec ++ bytes "] ")))))))))))

-- `final_format`, with the end of the line.
unfoldable pub final_format : Logger → Clock → LogLevel → Text → Text
final_format logger now level format =
    let (color, prefix) = style level in
    if colors logger
    then color ++ (prefix ++ (format ++ (log_colors reset ++ bytes "\n")))
    else date now ++ (prefix ++ (format ++ bytes "\n"))

-- `createMessage`. Arguments that do not fit the format are undefined behaviour.
pub create_message : Logger → Clock → LogLevel → Text → List Arg → Option Text
create_message logger now level format args =
    printf (final_format logger now level (c_str format)) args

-- `print` of the two loggers; `lvl < WARNING` is a test on the order of the levels.
unfoldable pub rank : LogLevel → ℕ
rank debug = 0
rank info = 1
rank success = 2
rank warning = 3
rank error = 4
rank critical = 5

pub print_stream : Logger → LogLevel → Stream
print_stream stdout_logger level = if ltb (rank level) (rank warning) then cout else cerr
print_stream file_logger level = log_file

pub print_error_stream : Logger → Stream
print_error_stream stdout_logger = cout
print_error_stream file_logger = log_file

module _ (os : Os) where
  -- The time of a message, which `createMessage` reads only where there are no colours.
  pub message_time : Logger → os.State → ℕ × os.State
  message_time logger s = if colors logger then (0, s) else os.time s

  -- A message that is formatted at the present time.
  pub formatted : LogLevel → Text → List Arg → M os Text
  formatted level format args w =
      let (seconds, system) = message_time w.logger w.system in
      elim (create_message w.logger (os.localtime seconds) level format args) [
        | none ↦ fault (record w { system = system })
        | some message ↦ pure message (record w { system = system })
      ]

  -- `LOG(logger, level, format, …)`, which is `LogMe`.
  pub log_me : LogLevel → Text → List Arg → M os (Unit {0})
  log_me level format args w =
      (formatted level format args >>= λ message.
      emit (wrote (print_stream w.logger level) message))
        w

  -- `createCErrorMessage`
  pub create_c_error_message : Text → M os Text
  create_c_error_message message w =
      formatted error (bytes "%s: %s (%d)")
        (string message
          ∷ string (os.strerror (os.errno w.system))
          ∷ signed (pos (os.errno w.system))
          ∷ [])
        w

  -- `LOG_ERROR(logger, message)`
  pub log_error : Text → M os (Unit {0})
  log_error message w =
      (create_c_error_message message >>= λ line. emit (wrote (print_error_stream w.logger) line)) w

  -- Of the base class both are empty.
  unfoldable pub startup : M os (Unit {0})
  startup = pure tt

  unfoldable pub shutdown : M os (Unit {0})
  shutdown = pure tt

  -- `StdoutLogger logger;`, which becomes the logger of all objects behind it, and its
  -- destructor.
  unfoldable pub new_stdout_logger : M os (Unit {0})
  new_stdout_logger w = startup (record w { logger = stdout_logger })

  unfoldable pub delete_stdout_logger : M os (Unit {0})
  delete_stdout_logger = shutdown

  -- The same for a FileLogger. `good` says whether the file can be opened to append to it.
  pub new_file_logger : (good : os.State → Text → Bool) → Text → M os (Unit {0})
  new_file_logger good path w =
      if good w.system path
      then done tt (record w { logger = file_logger })
      else throw (bytes "Failed to open log file.") w
