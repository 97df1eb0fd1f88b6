-- ===== src/Process/Tests.antt =====
-- The methods of Process on a small system.
use renzoku.Prelude.{pos, some, true, ◌≡◌, refl, [], ◌∷◌, arith}
use renzoku.World.Does.{IsReady, Returns}
use renzoku.World.Emitted.{Emitted}
use renzoku.World.Example.{small_os, make, three_processes}
use renzoku.Process.{run_and_wait, kill}
use renzoku.Process.Starts.{IsParent}
use renzoku.World.{◌>>◌}
use renzoku.Process.Again.{IsKilledAgain, kill-IsKilledAgain}
use renzoku.World.{Os, World, stdout_logger}
use renzoku.Process.{run}
use renzoku.Process.Child.{IsChild, run-IsChild}
use renzoku.Process.Verdict.{Judges, run_and_wait-Judges}
use renzoku.Prelude.{◌+◌, length}
use renzoku.Process.Arguments.{args_string}
use renzoku.Process.Buffer.{spaced, args_string-fits}
use renzoku.Process.Signals.{Killed, signals, kill-Killed}
use renzoku.Prelude.{none, ◌++◌, replicate, suc}
use renzoku.Util.Command.{parse_command, ◌>>=◌}
use renzoku.Process.Memory.{array_from_string, delete_generated, array_from_string-delete_generated}

pub small_os-IsParent : IsParent small_os
small_os-IsParent s e = cc

pub three_processes-IsReady : IsReady 3 three_processes
three_processes-IsReady = record {
  size = refl;
  callable = ((λ e. cc), ((λ e. cc), ((λ e. cc), tt)));
}

run_and_wait-Judges_example :
    Returns
      (Emitted {os = small_os} Judges three_processes)
      (run_and_wait small_os 1 three_processes)
run_and_wait-Judges_example =
    run_and_wait-Judges small_os 1 three_processes small_os-IsParent (omega arith)
      three_processes-IsReady

kill-Killed_example :
    Returns
      (Emitted {os = small_os} (λ ok es. Killed (pos 7) ok (signals es)) three_processes)
      (kill small_os 1 three_processes)
kill-Killed_example =
    kill-Killed small_os 1 make three_processes (omega arith) three_processes-IsReady refl

args_string-fits_example :
    args_string ((b'a' ∷ []) ∷ (b'b' ∷ []) ∷ []) ≡ some (b'a' ∷ b' ' ∷ b'b' ∷ b' ' ∷ [])
unfolding spaced
args_string-fits_example = args_string-fits ((b'a' ∷ []) ∷ (b'b' ∷ []) ∷ [])

kill-IsKilledAgain_example :
    Returns
      (Emitted {os = small_os}
        (λ again es. IsKilledAgain (pos 7) again (signals es))
        three_processes)
      ((kill small_os 1 >> kill small_os 1) three_processes)
kill-IsKilledAgain_example =
    kill-IsKilledAgain small_os 1 make three_processes (omega arith) three_processes-IsReady refl

abbrev child_os : Os
child_os = record small_os { fork = λ s. (pos 0, s + 1) }

abbrev one_process : World child_os
one_process = record { system = 0; logger = stdout_logger; heap = some make ∷ []; trace = [] }

run-IsChild_example : IsChild true make.command (run child_os 0 one_process)
run-IsChild_example = run-IsChild child_os 0 make one_process refl (λ e. cc) refl

-- The command `ls -l`, behind one block that is gone.
array_from_string-delete_generated_example :
    (array_from_string (b'l' ∷ b's' ∷ b' ' ∷ b'-' ∷ b'l' ∷ []) (none ∷ []) >>= λ (c, next).
    delete_generated c next)
    ≡ (parse_command (b'l' ∷ b's' ∷ b' ' ∷ b'-' ∷ b'l' ∷ []) >>= λ words.
        some ((none ∷ []) ++ replicate (suc (length words)) none))
array_from_string-delete_generated_example =
    array_from_string-delete_generated (b'l' ∷ b's' ∷ b' ' ∷ b'-' ∷ b'l' ∷ []) (none ∷ [])
