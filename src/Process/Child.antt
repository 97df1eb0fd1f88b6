-- ===== src/Process/Child.antt =====
-- `run` of src/process.cpp where `fork` answers as in the child.
use renzoku.Prelude.{
  pos, ◌≡◌, ◌≢◌, refl, Bool, Bool-cases, inl, inr, true, false, some, List, [], ◌∷◌, ◌++◌, arith,
  get_elem?, get_elem?-lt, get_elem?-set_self, append_assoc,
}
use renzoku.Text.{Text, bytes, c_str}
use renzoku.World.{
  load, Os, World, Process, Ptr, Run, stopped, executes, exits, M, ◌>>=◌, and_then, store,
  system_call,
}
use renzoku.World.Traces.{load_lem}
use renzoku.World.Ends.{Ends, returned, raised, IsSame}
use renzoku.Log.{debug, error}
use renzoku.Log.Printf.{string, printf}
use renzoku.Log.Message.{printf-NoPercent}
use renzoku.Log.Returns.{Fits, plain-Fits}
use renzoku.Log.Leaves.{Leaves-log_me}
use renzoku.Process.{execute, run_command, run_child, run_forked, fork_child, run, log_command}
use renzoku.Process.Arguments.{args_string}
use renzoku.Process.Buffer.{spaced, args_string-fits}

-- The child has become the command, or has exited with 1 where that failed.
pub data IsChild {os : Os} (in_path : Bool) (command : List Text) : Run os Bool → Type 0 where
  became :
      (w : World os)
      → os.exec w.system in_path command ≡ true
      → IsChild in_path command (stopped (executes in_path command) w)
  left :
      (w u : World os)
      → os.exec w.system in_path command ≡ false
      → IsChild in_path command (stopped (exits 1) u)

command-Fits :
    (name arguments : Text)
    → Fits (bytes "running command %s with %s arguments") (string name ∷ string arguments ∷ [])
unfolding bytes c_str printf
command-Fits name arguments = (
  bytes "running command "
      ++ (c_str name ++ (bytes " with " ++ (c_str arguments ++ bytes " arguments"))),
  λ rest h. rw (printf-NoPercent rest h) (simp append_assoc),
)

module _ (os : Os) {in_path : Bool} {command : List Text} where
  -- Behind a call that returns and leaves the objects as they are.
  behind :
      {A : Type 0} {P : A → Type 0} {w : World os} {r : Run os A} {k : A → M os Bool}
      → Ends (λ a u. P a × IsSame w u) ⊥ r
      → ((a : A) (u : World os) → IsSame w u → IsChild in_path command (k a u))
      → IsChild in_path command (and_then r k)
  behind (returned (p, s)) f = f _ _ s
  behind (raised e) f = absurd e

module _ (os : Os) where
  log_command-IsSame :
      (name : Text) (arguments : List Text) (w : World os)
      → Ends (λ _ u. Unit {0} × IsSame w u) ⊥ (log_command os name (args_string arguments) w)
  unfolding log_command bytes
  log_command-IsSame name arguments w =
      rw (args_string-fits arguments)
        ((Leaves-log_me debug _ _ (command-Fits name (spaced arguments))).apply w)

  run_command-IsChild :
      (in_path : Bool) (command : List Text) (w : World os)
      → command ≢ []
      → IsChild in_path command (run_command os in_path command w)
  unfolding run_command execute bytes c_str
  run_command-IsChild in_path [] w h = absurd (h refl)
  run_command-IsChild in_path (name ∷ arguments) w h =
      behind os (log_command-IsSame name arguments w) λ _ u _.
        elim (Bool-cases (os.exec u.system in_path (name ∷ arguments))) [
          | inl e ↦ rw (execute, e) (became u e)
          | inr e ↦
              rw (execute, e)
                (behind os
                  ((Leaves-log_me error _ _
                      (plain-Fits (bytes "Failed to run command!") (omega arith))).apply
                    u)
                  λ _ v _. left u v e)
        ]

  run_command_loaded :
      (p : Ptr) (x : Process) (w : World os)
      → get_elem? w.heap p ≡ some (some x)
      → x.command ≢ []
      → IsChild x.search_in_path x.command
          ((load p >>= λ x. run_command os x.search_in_path x.command) w)
  run_command_loaded p x w e h =
      rw (load_lem p w e) (run_command-IsChild x.search_in_path x.command w h)

  run_child-IsChild :
      (p : Ptr) (x : Process) (w : World os)
      → get_elem? w.heap p ≡ some (some x)
      → x.command ≢ []
      → IsChild x.search_in_path x.command (run_child os p w)
  unfolding run_child bytes c_str
  run_child-IsChild p x w e h =
      behind os
        ((Leaves-log_me debug _ _ (plain-Fits (bytes "In child process.") (omega arith))).apply w)
        λ _ u same. run_command_loaded p x u (rw same.heap e) h

  -- `run` on an object that is there and whose command has a name does not return where `fork`
  -- answers as in the child: the child becomes the command of the object, looked for as its flag
  -- says, or exits with 1 where that fails.
  pub run-IsChild :
      (p : Ptr) (x : Process) (w : World os)
      → get_elem? w.heap p ≡ some (some x)
      → x.command ≢ []
      → (os.fork w.system).0 ≡ pos 0
      → IsChild x.search_in_path x.command (run os p w)
  unfolding run fork_child run_forked store system_call
  run-IsChild p x w e h child =
      rw (load_lem p w e, child)
        (run_child-IsChild p (record x { proc = pos 0 }) _
          (get_elem?-set_self w.heap p _ (get_elem?-lt w.heap p e)) h)
