-- ===== src/Log/Returns.antt =====
-- The formats that the program prints with, and the logging of src/log.cpp as its callers see it.
use renzoku.Prelude.{ℤ, pos, ℕ, sym, List, [], ◌∷◌, ◌++◌, append_assoc, append-nil}
use renzoku.Text.{Text, bytes, c_str}
use renzoku.World.{Os, wrote}
use renzoku.World.Does.{Does, Any, returns, Does-bind, Does-emit, started_by}
use renzoku.Log.{
  LogLevel, error, print_stream, print_error_stream, message_time, formatted, log_me,
  create_c_error_message, log_error,
}
use renzoku.Log.Printf.{Arg, string, signed, printf, to_decimal}
use renzoku.Log.Printf.Laws.{NoPercent}
use renzoku.Log.Message.{PrintsAs, plain_PrintsAs, printf-NoPercent, create_message-PrintsAs}

-- The arguments fit the format.
abbrev pub Fits : Text → List Arg → Type 0
Fits format args = (out : Text) × PrintsAs (c_str format) args out

pub error_line-Fits :
    (message reason : Text) (code : ℕ)
    → Fits (bytes "%s: %s (%d)") (string message ∷ string reason ∷ signed (pos code) ∷ [])
unfolding bytes c_str printf
error_line-Fits message reason code = (
  c_str message
      ++ (bytes ": " ++ (c_str reason ++ (bytes " (" ++ (to_decimal (pos code) ++ bytes ")")))),
  λ rest h. rw (printf-NoPercent rest h) (simp append_assoc),
)

pub name-Fits :
    (name : Text)
    → Fits (bytes "An error has occured while attempting to run: %s") (string name ∷ [])
unfolding bytes c_str printf
name-Fits name = (
  bytes "An error has occured while attempting to run: " ++ c_str name,
  λ rest h. rw (printf-NoPercent rest h),
)

pub exit-Fits :
    (pid : ℤ) (status : ℕ)
    → Fits (bytes "Process [%d] exited with %d") (signed pid ∷ signed (pos status) ∷ [])
unfolding bytes c_str printf
exit-Fits pid status = (
  bytes "Process [" ++ (to_decimal pid ++ (bytes "] exited with " ++ to_decimal (pos status))),
  λ rest h. rw (printf-NoPercent rest h) (simp append_assoc),
)

pub pid-Fits : (pid : ℤ) → Fits (bytes "The child has a pid of %d") (signed pid ∷ [])
unfolding bytes c_str printf
pid-Fits pid =
    (bytes "The child has a pid of " ++ to_decimal pid, λ rest h. rw (printf-NoPercent rest h))

pub plain-Fits : (format : Text) → NoPercent (c_str format) → Fits format []
plain-Fits format h = (c_str format, plain_PrintsAs (c_str format) h)

module _ {os : Os} {n : ℕ} where
  Does-formatted :
      (level : LogLevel) (format : Text) (args : List Arg)
      → Fits format args
      → Does n Any [] (formatted os level format args)
  unfolding formatted
  Does-formatted level format args (out, prints) = record {
    apply = λ w r.
        let message =
          create_message-PrintsAs w.logger (os.localtime (message_time os w.logger w.system).0)
            level format out args prints in
        rw (message, formatted)
          (returns (
            tt,
            record {
              ready = record { size = r.size; callable = r.callable };
              starts = sym (append-nil (started_by w.trace));
            },
          ));
  }

  -- Logging in a format that its arguments fit returns, and starts nothing.
  pub Does-log_me :
      (level : LogLevel) (format : Text) (args : List Arg)
      → Fits format args
      → Does n Any [] (log_me os level format args)
  unfolding log_me started_by
  Does-log_me level format args fits = record {
    apply = λ w.
        (Does-bind (Does-formatted level format args fits)
            (λ line _. Does-emit (wrote (print_stream w.logger level) line))).apply
          w;
  }

  Does-c_error_message : (message : Text) → Does n Any [] (create_c_error_message os message)
  unfolding create_c_error_message
  Does-c_error_message message = record {
    apply = λ w.
        (Does-formatted error _ _
            (error_line-Fits message (os.strerror (os.errno w.system)) (os.errno w.system))).apply
          w;
  }

  pub Does-log_error : (message : Text) → Does n Any [] (log_error os message)
  unfolding log_error started_by
  Does-log_error message = record {
    apply = λ w.
        (Does-bind (Does-c_error_message message)
            (λ line _. Does-emit (wrote (print_error_stream w.logger) line))).apply
          w;
  }
