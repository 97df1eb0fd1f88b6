-- ===== src/OldWatcher.antt =====
-- oldwatcher.c: the prototype in C, which watches one directory and starts `./a.out`.
pub mod Suffix
pub mod Starts
pub mod Tests
pub mod Child
pub mod Killed
pub mod Rounds
use renzoku.Prelude.{
  ℕ, zero, suc, ℤ, pos, negsuc, at_most, is_negative, ◌+◌, ◌-◌, Bool, true, false, ◌&&◌, Option,
  none, some, List, [], ◌∷◌, ◌++◌, leb, ltb, ◌==◌, if◌then◌else◌, length, drop,
}
use renzoku.Text.{Text, bytes, c_str, null_byte}
use renzoku.Log.Printf.{to_decimal}
use renzoku.World.{
  Os, InotifyEvent, Ptr, Waited, cout, cerr, started, wrote, watched, unwatched, exits, out_of_fuel,
  M, stopped, ◌>>=◌, ◌>>◌, pure, fault, emit, system_call,
}
use renzoku.Process.{sigterm, send_signal, wait_child, execute}
use renzoku.Watcher.{is_file_change}

-- The prototype has no objects: a `started` carries one of these for the function that calls
-- `fork`.
abbrev pub build : Ptr
build = 0

abbrev pub program : Ptr
program = 1

-- `strncmp(s, t, n) == 0`
unfoldable pub strncmp_is_zero : Text → Text → ℕ → Bool
strncmp_is_zero s t zero = true
strncmp_is_zero [] [] (suc n) = true
strncmp_is_zero [] (d ∷ t) (suc n) = d == null_byte
strncmp_is_zero (c ∷ s) [] (suc n) = c == null_byte
strncmp_is_zero (c ∷ s) (d ∷ t) (suc n) =
    let rest = strncmp_is_zero s t n in c == d && (if c == null_byte then true else rest)

-- A pointer to a string that may be NULL.
pub ends_with : Option Text → Option Text → Bool
ends_with none suffix = false
ends_with (some str) none = false
ends_with (some str) (some suffix) =
    let lenstr = length (c_str str) in
    let lensuffix = length (c_str suffix) in
    if ltb lenstr lensuffix
    then false
    else strncmp_is_zero (drop (lenstr - lensuffix) str) suffix lensuffix

-- What `watcher` keeps from one round to the next.
pub record OldWatcher : Type 0 where
  pub fd : ℤ
  pub wd : ℤ
  pub timer : ℕ
  pub progpid : ℤ

-- When SIGINT arrives as an event is handled: not at all; before the test of `gRunning`; or
-- behind it, as in the build, in `killprog` or in `runprog`.
pub data Moment : Type 0 where
  never before behind : Moment

-- When it arrives in a round of the loop: in `read`, and with the events that `read` has given.
pub record Arrival : Type 0 where
  pub in_read : Bool
  pub in_events : List Moment

module _ (os : Os) where
  pub perror : Text → M os (Unit {0})
  perror message w =
      emit (wrote cerr (message ++ (bytes ": " ++ (os.strerror (os.errno w.system) ++ bytes "\n"))))
        w

  -- The handler: the new value of `gRunning`.
  pub catch_int : ℕ → M os ℕ
  catch_int flag = do
    emit (wrote cerr (bytes "=> Caught deadly SIGINT, termination immenent!\n"))
    pure 0

  pub report_killed : Waited → M os (Unit {0})
  report_killed answer = do
    if is_negative answer.pid then perror (bytes "waitpid") else pure tt
    if answer.status == 0
        then pure tt
        else emit (
            wrote cout (
              bytes "=> Process ["
              ++ (to_decimal answer.pid
                  ++ (bytes "] exited with " ++ (to_decimal (pos answer.status) ++ bytes "\n")))))

  pub await_killed : ℤ → M os ℕ
  await_killed pid = do answer ← wait_child os pid false; report_killed answer; pure 1

  pub killprog : ℤ → M os ℕ
  killprog pid = if at_most pid 1 then pure 1 else (do
    ok ← send_signal os pid sigterm
    if ok then await_killed pid else (perror (bytes "kill") >> pure 0))

  -- `printf("-> The child has a pid of %d\n", pid)`
  pub print_child : ℤ → M os (Unit {0})
  print_child pid =
      emit (wrote cout (bytes "-> The child has a pid of " ++ (to_decimal pid ++ bytes "\n")))

module _ (os : Os) (getpid : os.State → ℤ) where
  -- `printf("[%d] -> In child process!\n", getpid())`
  pub print_in_child : M os (Unit {0})
  print_in_child w =
      emit (wrote cout (b'[' ∷ to_decimal (getpid w.system) ++ bytes "] -> In child process!\n")) w

  -- `return;` leaves the function without the value that its caller reads. Behind an `execvp`
  -- that fails the child returns.
  pub runprog_forked : ℤ → M os ℤ
  runprog_forked (negsuc zero) = do
    emit (wrote cerr (bytes "Failed to run program!\n"))
    perror os (bytes "fork")
    fault
  runprog_forked (pos zero) = do
    print_in_child
    execute os true (bytes "./a.out" ∷ bytes "--renzoku" ∷ [])
    perror os (bytes "ERROR: Failed to run rebuild command")
    pure (pos 0)
  runprog_forked pid = do print_child os pid; pure pid

  pub runprog : M os ℤ
  runprog = do pid ← system_call os.fork; emit (started program pid); runprog_forked pid

  -- The parent waits for `make`.
  pub await_build : ℤ → M os ℕ
  await_build pid = do
    print_child os pid
    answer ← wait_child os pid false
    if is_negative answer.pid then perror os (bytes "waitpid") else pure tt
    if answer.status == 0
        then pure 0
        else (emit (wrote cerr (bytes "=> An error has occured during the build\n")) >> pure 1)

  pub rebuild_forked : ℤ → M os ℕ
  rebuild_forked (negsuc zero) = do
    emit (wrote cerr (bytes "Failed to rebuild!\n"))
    perror os (bytes "fork")
    pure 1
  rebuild_forked (pos zero) = do
    print_in_child
    execute os true (bytes "make" ∷ [])
    perror os (bytes "ERROR: Failed to run rebuild command")
    stopped (exits 1)
  rebuild_forked pid = await_build pid

  pub rebuild : M os ℕ
  rebuild = do pid ← system_call os.fork; emit (started build pid); rebuild_forked pid

  -- Behind a build that succeeded.
  pub restart : OldWatcher → M os OldWatcher
  restart x = do
    now ← system_call os.time
    killed ← killprog os x.progpid
    if killed == 0
        then pure (record x { timer = now })
        else (do pid ← runprog; pure (record x { timer = now; progpid = pid }))

  pub rebuild_and_restart : OldWatcher → M os OldWatcher
  rebuild_and_restart x = do failed ← rebuild; if failed == 0 then restart x else pure x

  -- A file with the suffix: it is built where the last restart is five seconds old and `gRunning`
  -- is set.
  pub on_change : ℕ → Text → OldWatcher → M os OldWatcher
  on_change flag name x = do
    emit (wrote cout (bytes " => File " ++ (c_str name ++ bytes " was modified!\n")))
    now ← system_call os.time
    if leb (os.mktime_after x.timer 5) now
        then (if flag == 0 then pure x else rebuild_and_restart x)
        else pure x

  pub handle_event : ℕ → InotifyEvent → OldWatcher → M os OldWatcher
  handle_event flag event x =
      if is_file_change event && ends_with (some event.name) (some (bytes ".sh"))
      then on_change flag event.name x
      else pure x

  -- One turn of `while(i < length)`, with the moment at which SIGINT arrives.
  pub handle_one : Moment → ℕ → InotifyEvent → OldWatcher → M os (ℕ × OldWatcher)
  handle_one never flag event x = do next ← handle_event flag event x; pure (flag, next)
  handle_one before flag event x = do
    after ← catch_int os flag
    next ← handle_event after event x
    pure (after, next)
  handle_one behind flag event x = do
    next ← handle_event flag event x
    after ← catch_int os flag
    pure (after, next)

  -- `while(i < length)`; behind the last moment of the list there are no more arrivals.
  pub handle_events : List Moment → ℕ → List InotifyEvent → OldWatcher → M os (ℕ × OldWatcher)
  handle_events moments flag [] x = pure (flag, x)
  handle_events [] flag (event ∷ events) x = do
    state ← handle_one never flag event x
    handle_events [] state.0 events state.1
  handle_events (moment ∷ moments) flag (event ∷ events) x = do
    state ← handle_one moment flag event x
    handle_events moments state.0 events state.1

  pub interrupt : Bool → ℕ → M os ℕ
  interrupt true flag = catch_int os flag
  interrupt false flag = pure flag

  -- One round of `while(gRunning)`.
  pub round : Arrival → ℕ → OldWatcher → M os (ℕ × OldWatcher)
  round a flag x = do
    answer ← system_call (λ s. os.read s x.fd)
    after ← interrupt a.in_read flag
    if at_most answer.0 0 then perror os (bytes "read") else pure tt
    if at_most answer.0 0 then pure (after, x) else handle_events a.in_events after answer.1 x

  pub watch_while : List Arrival → ℕ → OldWatcher → M os OldWatcher
  watch_while arrivals zero x = pure x
  watch_while [] (suc flag) x = λ w. stopped out_of_fuel w
  watch_while (a ∷ arrivals) (suc flag) x = do
    state ← round a (suc flag) x
    watch_while arrivals state.0 state.1

  -- `getcwd`, into an array that stays without a value where it fails; so the text is read behind
  -- it only where it is there.
  pub print_cwd : M os (Option Text)
  print_cwd w = elim (os.getcwd w.system) [
    | none ↦ (perror os (bytes "getcwd") >> pure none) w
    | some here ↦
        (emit (wrote cout (bytes "Current working dir: " ++ (here ++ bytes "\n")))
            >> pure (some here))
          w
  ]

  pub add_watch : ℤ → Option Text → M os ℤ
  add_watch fd none = fault
  add_watch fd (some here) = do
    wd ← system_call (λ s. os.inotify_add_watch s (fd, here))
    emit (watched here)
    pure wd

  -- `watcher` up to its loop, and behind it up to the `close` of the descriptor.
  pub set_up : M os OldWatcher
  set_up = do
    now ← system_call os.time
    progpid ← runprog
    here ← print_cwd
    fd ← system_call os.inotify_init
    if is_negative fd then perror os (bytes "inotify_init") else pure tt
    wd ← add_watch fd here
    pure (record { fd = fd; wd = wd; timer = now - 15; progpid = progpid })

  pub tear_down : OldWatcher → M os (Unit {0})
  tear_down x = do
    killprog os x.progpid
    system_call (λ s. os.inotify_rm_watch s (x.fd, x.wd))
    emit (unwatched x.wd)

  pub watcher : List Arrival → M os (Unit {0})
  watcher arrivals = do x ← set_up; last ← watch_while arrivals 1 x; tear_down last

  -- `main`, with the arrivals of SIGINT in the rounds of its loop.
  pub main : List Arrival → M os ℕ
  main arrivals = do watcher arrivals; pure 0
