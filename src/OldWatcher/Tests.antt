-- ===== src/OldWatcher/Tests.antt =====
-- The prototype on a small system, and the names a.sh and ab.sh.
use renzoku.Prelude.{ℤ, ℕ, pos, ◌+◌, ◌≡◌, ◌≢◌, ◌↔◌, refl, false, true, some, [], ◌∷◌, ◌++◌, arith}
use renzoku.Text.{Text}
use renzoku.World.{Os}
use renzoku.World.Does.{Does, Returns}
use renzoku.World.Emitted.{Yielded}
use renzoku.World.Example.{small_os, three_processes}
use renzoku.Process.Signals.{signals}
use renzoku.Util.Match.{star, str_match}
use renzoku.OldWatcher.{OldWatcher, Arrival, behind, program, ends_with, killprog, round, set_up}
use renzoku.OldWatcher.Suffix.{ends_with_iff, str_match-ends_with}
use renzoku.OldWatcher.Killed.{OldKilled, killprog-OldKilled}
use renzoku.OldWatcher.Rounds.{Does-round}
use renzoku.OldWatcher.Child.{IsLostChild, set_up-Makes}
use renzoku.World.{started, watched}
use renzoku.World.Calls.{Makes}

abbrev script : Text
script = b'a' ∷ b'.' ∷ b's' ∷ b'h' ∷ []

abbrev suffix : Text
suffix = b'.' ∷ b's' ∷ b'h' ∷ []

ends_with_iff_example :
    (ends_with (some script) (some suffix) ≡ true) ↔ ((before : Text) × (script ≡ before ++ suffix))
ends_with_iff_example =
    ends_with_iff script suffix
      ((λ e. omega arith), ((λ e. omega arith), ((λ e. omega arith), ((λ e. omega arith), tt))))
      ((λ e. omega arith), ((λ e. omega arith), ((λ e. omega arith), tt)))

str_match-ends_with_example :
    (str_match (star ∷ suffix) script ≡ some true)
    ↔ ((ends_with (some script) (some suffix) ≡ true) × (script ≢ suffix))
str_match-ends_with_example =
    str_match-ends_with script suffix
      ((λ e. omega arith), ((λ e. omega arith), ((λ e. omega arith), ((λ e. omega arith), tt))))
      ((λ e. omega arith), ((λ e. omega arith), ((λ e. omega arith), tt)))
      ((λ e. omega arith), ((λ e. omega arith), ((λ e. omega arith), tt))) (omega arith)

abbrev getpid : ℕ → ℤ
getpid s = pos 5

killprog-OldKilled_example :
    Returns
      (λ result w'.
        Yielded (λ result es. OldKilled (pos 7) result (signals es)) three_processes result w')
      (killprog small_os (pos 7) three_processes)
killprog-OldKilled_example = killprog-OldKilled small_os (pos 7) three_processes

-- No SIGINT, and SIGINT in `read`, and with the first event of a round, behind its test of the
-- flag.
abbrev quiet : Arrival
quiet = record { in_read = false; in_events = [] }

abbrev in_read : Arrival
in_read = record { in_read = true; in_events = [] }

abbrev in_build : Arrival
in_build = record { in_read = false; in_events = behind ∷ [] }

abbrev old : OldWatcher
old = record { fd = pos 3; wd = pos 1; timer = 0; progpid = pos 7 }

Does-round_example : Does 3 (λ state. state ≡ (0, old)) [] (round small_os getpid in_read 1 old)
Does-round_example = Does-round small_os getpid in_read 1 old refl

abbrev lost_os : Os
lost_os = record small_os { fork = λ s. (pos 0, s + 1); exec = λ s in_path command. false }

lost_os-IsLostChild : IsLostChild lost_os
lost_os-IsLostChild = record { child = λ s. refl; fails = λ s. refl }

set_up-Makes_example :
    Makes
      (λ x. x.progpid ≡ pos 0)
      (started program (pos 0) ∷ watched (b'/' ∷ []) ∷ [])
      (set_up lost_os getpid)
set_up-Makes_example = set_up-Makes lost_os getpid lost_os-IsLostChild (b'/' ∷ []) (λ s. refl)
