-- ===== src/Config/Formats.antt =====
-- The formats that src/config.cpp logs with.
use renzoku.Prelude.{[], ◌∷◌, ◌++◌, append_assoc}
use renzoku.Text.{Text, bytes, c_str}
use renzoku.Log.Printf.{string, printf}
use renzoku.Log.Message.{printf-NoPercent}
use renzoku.Log.Returns.{Fits}

pub proc-Fits : (t : Text) → Fits (bytes "Proc: %s") (string t ∷ [])
unfolding bytes c_str printf
proc-Fits t = (bytes "Proc: " ++ c_str t, λ rest h. rw (printf-NoPercent rest h))

pub filter-Fits : (t : Text) → Fits (bytes "Filter: %s") (string t ∷ [])
unfolding bytes c_str printf
filter-Fits t = (bytes "Filter: " ++ c_str t, λ rest h. rw (printf-NoPercent rest h))

pub include-Fits : (t : Text) → Fits (bytes "Include: %s") (string t ∷ [])
unfolding bytes c_str printf
include-Fits t = (bytes "Include: " ++ c_str t, λ rest h. rw (printf-NoPercent rest h))

pub exclude-Fits : (t : Text) → Fits (bytes "Exclude: %s") (string t ∷ [])
unfolding bytes c_str printf
exclude-Fits t = (bytes "Exclude: " ++ c_str t, λ rest h. rw (printf-NoPercent rest h))

pub value-Fits : (t : Text) → Fits (bytes "Value: %s\n") (string t ∷ [])
unfolding bytes c_str printf
value-Fits t = (
  bytes "Value: " ++ (c_str t ++ bytes "\n"),
  λ rest h. rw (printf-NoPercent rest h) (simp append_assoc),
)
