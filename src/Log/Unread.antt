-- ===== src/Log/Unread.antt =====
-- The logging of src/log.cpp reads no command.
use renzoku.Prelude.{Option-cases, inl, inr, refl, List}
use renzoku.Text.{Text}
use renzoku.World.{Os, wrote}
use renzoku.World.Changes.{Commutes, Commutes-bind, Commutes-emit}
use renzoku.Log.{
  LogLevel, error, print_stream, print_error_stream, message_time, create_message, formatted,
  log_me, create_c_error_message, log_error,
}
use renzoku.Log.Printf.{Arg}

module _ (f : List Text → List Text) (os : Os) where
  Commutes-formatted :
      (level : LogLevel) (format : Text) (args : List Arg)
      → Commutes f (formatted os level format args)
  unfolding formatted
  Commutes-formatted level format args = record {
    apply = λ w.
        elim (Option-cases (
          create_message w.logger (os.localtime (message_time os w.logger w.system).0) level format
            args)) [ inl e ↦ rw (formatted, e) refl | inr (line, e) ↦ rw (formatted, e) refl ];
  }

  pub Commutes-log_me :
      (level : LogLevel) (format : Text) (args : List Arg)
      → Commutes f (log_me os level format args)
  unfolding log_me
  Commutes-log_me level format args = record {
    apply = λ w.
        (Commutes-bind f (Commutes-formatted level format args)
            (λ line. Commutes-emit f (wrote (print_stream w.logger level) line))).apply
          w;
  }

  Commutes-c_error_message : (message : Text) → Commutes f (create_c_error_message os message)
  unfolding create_c_error_message
  Commutes-c_error_message message = record { apply = λ w. (Commutes-formatted error _ _).apply w }

  pub Commutes-log_error : (message : Text) → Commutes f (log_error os message)
  unfolding log_error
  Commutes-log_error message = record {
    apply = λ w.
        (Commutes-bind f (Commutes-c_error_message message)
            (λ line. Commutes-emit f (wrote (print_error_stream w.logger) line))).apply
          w;
  }
