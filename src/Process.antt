-- ===== src/Process.antt =====
-- src/process.cpp and src/process.hpp: class Process. A method is called through the object's
-- address.
pub mod Starts
pub mod Verdict
pub mod Signals
pub mod Again
pub mod Delete
pub mod Clocked
pub mod Child
pub mod Unread
pub mod Leaves
pub mod Create
pub mod Memory
pub mod Arguments
pub mod Buffer
pub mod Tests
use renzoku.Prelude.{
  ℕ, zero, suc, ℤ, pos, negsuc, at_most, is_negative, is_positive, ◌+◌, Bool, true, false, not,
  ◌&&◌, Option, none, some, List, [], ◌∷◌, ◌++◌, ◌==◌, if◌then◌else◌, length,
}
use renzoku.Text.{Text, bytes}
use renzoku.World.{
  Os, Waited, Process, Ptr, World, started, waited, signalled, slept, deleted, executes, exits, M,
  stopped, done, ◌>>=◌, ◌>>◌, pure, fault, emit, load, store, new, free, system_call,
}
use renzoku.Log.Printf.{Arg, string, signed}
use renzoku.Log.{debug, success, error, log_me, log_error}
use renzoku.Util.Command.{parse_command}
use renzoku.Process.Arguments.{args_string}

-- `WNOHANG`, `SIGTERM` and `ECHILD` of Linux.
abbrev pub sigterm : ℕ
sigterm = 15

abbrev pub echild : ℕ
echild = 10

module _ (os : Os) where
  -- `execvp` or `execv`, which returns only where it fails.
  unfoldable pub execute : Bool → List Text → M os (Unit {0})
  execute in_path command w =
      if os.exec w.system in_path command then stopped (executes in_path command) w else done tt w

  -- The two constructors.
  pub new_from_string : Text → Bool → M os Ptr
  new_from_string command in_path = elim (parse_command command) [
    | none ↦ fault
    | some arguments ↦ new (record {
      proc = pos 0;
      search_in_path = in_path;
      generated_command = true;
      enabled = true;
      command = arguments;
    })
  ]

  pub new_from_array : List Text → Bool → M os Ptr
  new_from_array command in_path = new (record {
    proc = pos 0;
    search_in_path = in_path;
    generated_command = false;
    enabled = true;
    command = command;
  })

  pub set_enabled : Bool → Ptr → M os (Unit {0})
  set_enabled on this = do x ← load this; store this (record x { enabled = on })

  -- `enable`, `disable` and `isEnabled`
  pub enable : Ptr → M os (Unit {0})
  enable = set_enabled true

  pub disable : Ptr → M os (Unit {0})
  disable = set_enabled false

  pub is_enabled : Ptr → M os Bool
  is_enabled this = do x ← load this; pure x.enabled

  -- `mProc = fork()`
  pub fork_child : Ptr → M os ℤ
  fork_child this = do
    x ← load this
    answer ← system_call os.fork
    emit (started this answer)
    store this (record x { proc = answer })
    pure answer

  -- `waitpid(mProc, &status, …)`
  unfoldable pub wait_child : ℤ → Bool → M os Waited
  wait_child pid no_hang = do
    answer ← system_call (λ s. os.waitpid s pid no_hang)
    emit (waited pid answer)
    pure answer

  -- `::kill(pid, signal) == 0`
  unfoldable pub send_signal : ℤ → ℕ → M os Bool
  send_signal pid signal = do
    answer ← system_call (λ s. os.kill s pid signal)
    emit (signalled pid signal answer)
    pure answer

  -- `if(pid < 0 && errno != ECHILD) LOG_ERROR(logger, "waitpid")`
  pub report_wait : Waited → M os (Unit {0})
  report_wait answer w =
      (if is_negative answer.pid && not (os.errno w.system == echild)
          then log_error os (bytes "waitpid")
          else pure tt)
        w

  -- `mCommand[0]`, printed by `%s`
  pub name_of : List Text → M os Text
  name_of [] = fault
  name_of (name ∷ arguments) = pure name

  -- `LOG(logger, ERROR, "An error has occured …", mCommand[0]); return false;`
  pub report_failure : List Text → M os Bool
  report_failure command = do
    name ← name_of command
    log_me os error (bytes "An error has occured while attempting to run: %s") (string name ∷ [])
    pure false

  -- The `waitpid` at the end of `run` and of `runAndWait`, with the tests behind it.
  pub reap : Ptr → Bool → M os Bool
  reap this no_hang = do
    x ← load this
    answer ← wait_child x.proc no_hang
    report_wait answer
    if is_positive answer.pid && not (answer.status == 0)
        then report_failure x.command
        else pure true

  pub log_command : Text → Option Text → M os (Unit {0})
  log_command name none = fault
  log_command name (some line) =
      log_me os debug (bytes "running command %s with %s arguments")
        (string name ∷ string line ∷ [])

  -- The child: it logs its command line and becomes the command, or exits with 1. The first loop
  -- reads `mCommand[1]`, which an array of the NULL alone does not have.
  pub run_command : Bool → List Text → M os Bool
  run_command in_path [] = fault
  run_command in_path (name ∷ arguments) = do
    log_command name (args_string arguments)
    execute in_path (name ∷ arguments)
    log_me os error (bytes "Failed to run command!") []
    stopped (exits 1)

  pub run_child : Ptr → M os Bool
  run_child this = do
    log_me os debug (bytes "In child process.") []
    x ← load this
    run_command x.search_in_path x.command

  -- The parent.
  pub run_parent : Ptr → M os Bool
  run_parent this = do
    x ← load this
    log_me os debug (bytes "The child has a pid of %d") (signed x.proc ∷ [])
    emit (slept 10)
    reap this true

  pub run_forked : Ptr → ℤ → M os Bool
  run_forked this (negsuc zero) = do
    log_me os error (bytes "Failed to launch fork!") []
    log_error os (bytes "fork")
    pure false
  run_forked this (pos zero) = run_child this
  run_forked this _ = run_parent this

  pub run : Ptr → M os Bool
  run this = do answer ← fork_child this; run_forked this answer

  pub run_and_wait : Ptr → M os Bool
  run_and_wait this = do ok ← run this; if ok then reap this false else pure false

  -- `(!::kill(mProc, 0)) && ::kill(mProc, SIGTERM)`
  pub terminate_fails : ℤ → M os Bool
  terminate_fails pid = do exists ← send_signal pid 0; if exists then term else pure false
    where
      term : M os Bool
      term = do ok ← send_signal pid sigterm; pure (not ok)

  -- `if(status != 0) LOG(logger, SUCCESS, "Process [%d] exited with %d", mProc, status)`
  pub report_exit : ℤ → ℕ → M os (Unit {0})
  report_exit pid code =
      if code == 0
      then pure tt
      else log_me os success (bytes "Process [%d] exited with %d")
          (signed pid ∷ signed (pos code) ∷ [])

  -- The end of `kill`: it waits until the child is gone.
  pub await_end : ℤ → M os Bool
  await_end pid = do
    answer ← wait_child pid false
    report_wait answer
    report_exit pid answer.status
    pure true

  pub kill_live : ℤ → M os Bool
  kill_live pid = do
    failed ← terminate_fails pid
    if failed then (log_error os (bytes "kill") >> pure false) else await_end pid

  pub kill : Ptr → M os Bool
  kill this = do x ← load this; if at_most x.proc 1 then pure true else kill_live x.proc

  pub status : Ptr → M os ℕ
  status this = pure 0

  -- The strings and the array of a command that the object has made.
  pub delete_words : Process → M os (Unit {0})
  delete_words x = if x.generated_command then emit (deleted x.command) else pure tt

  -- `delete process`: the destructor kills the child and frees what the object has made, and the
  -- object goes.
  pub delete : Ptr → M os (Unit {0})
  delete this = do kill this; x ← load this; delete_words x; free this
