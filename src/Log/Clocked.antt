-- ===== src/Log/Clocked.antt =====
-- The logging of src/log.cpp takes time only forward.
use renzoku.Prelude.{ℕ, Option-cases, inl, inr, List, ◌≤◌, arith}
use renzoku.Text.{Text}
use renzoku.World.{Os, Logger, stdout_logger, file_logger, wrote}
use renzoku.World.Clocked.{IsClock, Clocked, Clocked-bind, Clocked-emit}
use renzoku.Log.{
  LogLevel, error, print_stream, print_error_stream, message_time, create_message, formatted,
  log_me, create_c_error_message, log_error,
}
use renzoku.Log.Printf.{Arg}

module _ {os : Os} (now : os.State → ℕ) (c : IsClock os now) where
  message_time-le : (logger : Logger) (s : os.State) → now s ≤ now (message_time os logger s).1
  unfolding message_time
  message_time-le stdout_logger s = omega arith
  message_time-le file_logger s = c.time s

  Clocked-formatted :
      (level : LogLevel) (format : Text) (args : List Arg)
      → Clocked now (formatted os level format args)
  unfolding formatted
  Clocked-formatted level format args = record {
    apply = λ w.
        let later = message_time-le w.logger w.system in
        elim (Option-cases (
          create_message w.logger (os.localtime (message_time os w.logger w.system).0) level format
            args)) [ inl e ↦ rw (formatted, e) later | inr (line, e) ↦ rw (formatted, e) later ];
  }

  pub Clocked-log_me :
      (level : LogLevel) (format : Text) (args : List Arg)
      → Clocked now (log_me os level format args)
  unfolding log_me
  Clocked-log_me level format args = record {
    apply = λ w.
        (Clocked-bind now (Clocked-formatted level format args)
            (λ line. Clocked-emit now (wrote (print_stream w.logger level) line))).apply
          w;
  }

  Clocked-c_error_message : (message : Text) → Clocked now (create_c_error_message os message)
  unfolding create_c_error_message
  Clocked-c_error_message message = record { apply = λ w. (Clocked-formatted error _ _).apply w }

  pub Clocked-log_error : (message : Text) → Clocked now (log_error os message)
  unfolding log_error
  Clocked-log_error message = record {
    apply = λ w.
        (Clocked-bind now (Clocked-c_error_message message)
            (λ line. Clocked-emit now (wrote (print_error_stream w.logger) line))).apply
          w;
  }
