-- ===== src/Log/Quiet.antt =====
-- The events that the logging of src/log.cpp adds.
use renzoku.Prelude.{◌≡◌, refl, sym, Option, none, some, List, [], append-nil}
use renzoku.Text.{Text}
use renzoku.World.{Os, World, wrote}
use renzoku.World.Traces.{Emits, emits, ends, Traces, Traces-bind, Traces-emit, Idle}
use renzoku.Log.{
  LogLevel, error, print_stream, print_error_stream, message_time, formatted, log_me,
  create_message, create_c_error_message, log_error,
}
use renzoku.Log.Printf.{Arg}

module _ (os : Os) where
  formatted_silent :
      (level : LogLevel) (format : Text) (args : List Arg) (w : World os) (o : Option Text)
      → create_message w.logger
          (os.localtime (message_time os w.logger w.system).0)
          level
          format
          args
        ≡ o
      → Emits (λ line es. es ≡ []) w (formatted os level format args w)
  unfolding formatted
  formatted_silent level format args w none e = rw (e, formatted) ends
  formatted_silent level format args w (some line) e =
      rw (e, formatted) (emits [] (sym (append-nil w.trace)) refl)

  Traces-formatted :
      (level : LogLevel) (format : Text) (args : List Arg)
      → Traces (λ line es. es ≡ []) (formatted os level format args)
  Traces-formatted level format args = record {
    apply = λ w. formatted_silent level format args w _ refl;
  }

  pub Traces-log_me :
      (level : LogLevel) (format : Text) (args : List Arg)
      → Traces Idle (log_me os level format args)
  unfolding log_me
  Traces-log_me level format args = record {
    apply = λ w.
        (Traces-bind {S = Idle} (Traces-formatted level format args) (λ line es e.
            rw e (Traces-emit (wrote (print_stream w.logger level) line) (tt, tt)))).apply
          w;
  }

  Traces-c_error_message :
      (message : Text) → Traces (λ line es. es ≡ []) (create_c_error_message os message)
  unfolding create_c_error_message
  Traces-c_error_message message = record { apply = λ w. (Traces-formatted error _ _).apply w }

  pub Traces-log_error : (message : Text) → Traces Idle (log_error os message)
  unfolding log_error
  Traces-log_error message = record {
    apply = λ w.
        (Traces-bind {S = Idle} (Traces-c_error_message message) (λ line es e.
            rw e (Traces-emit (wrote (print_error_stream w.logger) line) (tt, tt)))).apply
          w;
  }
