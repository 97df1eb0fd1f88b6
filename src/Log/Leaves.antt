-- ===== src/Log/Leaves.antt =====
-- The logging of src/log.cpp: it returns, and leaves the objects of the program as they are.
use renzoku.Prelude.{List, refl}
use renzoku.Text.{Text}
use renzoku.World.{Os, wrote}
use renzoku.World.Does.{started_by}
use renzoku.World.Ends.{Leaves, Leaves-bind, Leaves-emit, returned}
use renzoku.Log.{
  LogLevel, error, print_stream, print_error_stream, message_time, formatted, log_me,
  create_c_error_message, log_error,
}
use renzoku.Log.Printf.{Arg}
use renzoku.Log.Message.{create_message-PrintsAs}
use renzoku.Log.Returns.{Fits, error_line-Fits}

module _ {os : Os} {E : Type 0} where
  Leaves-formatted :
      (level : LogLevel) (format : Text) (args : List Arg)
      → Fits format args
      → Leaves (λ _. Unit {0}) E (formatted os level format args)
  unfolding formatted
  Leaves-formatted level format args (out, prints) = record {
    apply = λ w.
        let message =
          create_message-PrintsAs w.logger (os.localtime (message_time os w.logger w.system).0)
            level format out args prints in
        rw (message, formatted) (returned (tt, record { heap = refl; starts = refl }));
  }

  pub Leaves-log_me :
      (level : LogLevel) (format : Text) (args : List Arg)
      → Fits format args
      → Leaves (λ _. Unit {0}) E (log_me os level format args)
  unfolding log_me started_by
  Leaves-log_me level format args fits = record {
    apply = λ w.
        (Leaves-bind (Leaves-formatted level format args fits)
            (λ line _. Leaves-emit (wrote (print_stream w.logger level) line) refl)).apply
          w;
  }

  Leaves-c_error_message :
      (message : Text) → Leaves (λ _. Unit {0}) E (create_c_error_message os message)
  unfolding create_c_error_message
  Leaves-c_error_message message = record {
    apply = λ w.
        (Leaves-formatted error _ _
            (error_line-Fits message (os.strerror (os.errno w.system)) (os.errno w.system))).apply
          w;
  }

  pub Leaves-log_error : (message : Text) → Leaves (λ _. Unit {0}) E (log_error os message)
  unfolding log_error started_by
  Leaves-log_error message = record {
    apply = λ w.
        (Leaves-bind (Leaves-c_error_message message)
            (λ line _. Leaves-emit (wrote (print_error_stream w.logger) line) refl)).apply
          w;
  }
