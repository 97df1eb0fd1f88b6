-- ===== src/World.antt =====
-- What the classes of the program share at run time: the operating system, the objects on the
-- heap, and the control flow of C++. A run of the model follows one operating system process:
-- `fork` answers as it does in the process that is followed.
pub mod Does
pub mod Starts
pub mod Traces
pub mod Emitted
pub mod Calls
pub mod Ends
pub mod Paces
pub mod Clocked
pub mod Changes
pub mod Example
use renzoku.Prelude.{
  ℕ, ℤ, ◌+◌, Bool, Option, none, some, List, [], ◌∷◌, ◌++◌, get_elem?, set, length,
}
use renzoku.Text.{Text}

-- The result of `waitpid`, and `status` behind the call, which was 0 before it.
pub record Waited : Type 0 where
  pub pid : ℤ
  pub status : ℕ

-- `struct tm`, as far as the logger prints it.
pub record Clock : Type 0 where
  pub tm_year : ℕ
  pub tm_mon : ℕ
  pub tm_mday : ℕ
  pub tm_hour : ℕ
  pub tm_min : ℕ
  pub tm_sec : ℕ

-- `struct inotify_event`, as far as the watcher reads it. The kernel lays the events of one
-- `read` out one behind another, each with `len` bytes of name, so the loop over the buffer is
-- one over them.
pub record InotifyEvent : Type 0 where
  pub mask : ℕ
  pub len : ℕ
  pub name : Text

-- The system calls of the program, over an unknown state. `kill` is true where it returns 0, and
-- `exec` where `execvp` (with the flag) or `execv` does not return.
-- `mktime_after t n` is `mktime` of `*localtime(&t)` with `n` added to `tm_sec`.
pub record Os : Type 1 where
  pub State : Type 0
  pub fork : State → ℤ × State
  pub waitpid : State → ℤ → Bool → Waited × State
  pub kill : State → ℤ → ℕ → Bool × State
  pub exec : State → Bool → List Text → Bool
  pub errno : State → ℕ
  pub strerror : ℕ → Text
  pub time : State → ℕ × State
  pub localtime : ℕ → Clock
  pub getcwd : State → Option Text
  -- Whether the path is a directory, and `none` where `lstat` fails.
  pub lstat : State → Text → Option Bool
  -- The names that `readdir` gives between `opendir` and `closedir`.
  pub opendir : State → Text → Option (List Text)
  pub inotify_init : State → ℤ × State
  pub inotify_add_watch : State → ℤ × Text → ℤ × State
  pub inotify_rm_watch : State → ℤ × ℤ → Bool × State
  pub select : State → ℤ → ℤ × State
  -- The length that `read` returns, with the events in the buffer.
  pub read : State → ℤ → (ℤ × List InotifyEvent) × State
  pub mktime_after : ℕ → ℕ → ℕ

-- class Process, src/process.hpp. All processes of a program share one logger.
pub record Process : Type 0 where
  pub proc : ℤ
  pub search_in_path : Bool
  pub generated_command : Bool
  pub enabled : Bool
  pub command : List Text

abbrev pub Ptr : Type 0
Ptr = ℕ

pub data Stream : Type 0 where
  cout cerr log_file : Stream

-- The calls that leave the program, in the order in which they are made. The pointer with a
-- `started` is that of the object whose method calls `fork`. Where the program looks at the
-- answer of a call, the answer comes last.
pub data Event : Type 0 where
  started : Ptr → ℤ → Event
  waited : ℤ → Waited → Event
  signalled : ℤ → ℕ → Bool → Event
  slept : ℕ → Event
  wrote : Stream → Text → Event
  watched : Text → Event
  unwatched : ℤ → Event
  -- The `delete[]` of the words of a command and of its array.
  deleted : List Text → Event

-- The class of the object behind an `iLogger*`.
pub data Logger : Type 0 where
  stdout_logger file_logger : Logger

pub record World (os : Os) : Type 0 where
  pub system : os.State
  pub logger : Logger
  pub heap : List (Option Process)
  pub trace : List Event

-- How a call can end without returning: in a child, which becomes another program or exits; by
-- `abort`; by an exception; by a use of memory that the language leaves undefined; and in the
-- model alone, a recursion that has used up its fuel.
pub data Stop : Type 0 where
  executes : (in_path : Bool) → (command : List Text) → Stop
  exits : ℕ → Stop
  aborts : Stop
  throws : Text → Stop
  undefined : Stop
  out_of_fuel : Stop

pub data Run (os : Os) (A : Type 0) : Type 0 where
  done : A → World os → Run os A
  stopped : Stop → World os → Run os A

abbrev pub M : Os → Type 0 → Type 0
M os A = World os → Run os A

module _ {os : Os} where
  abbrev pub pure : {A : Type 0} → A → M os A
  pure = done

  abbrev pub and_then : {A B : Type 0} → Run os A → (A → M os B) → Run os B
  and_then (done a w) k = k a w
  and_then (stopped s w) k = stopped s w

  infixl 5 ◌>>=◌ ◌>>◌
  abbrev pub ◌>>=◌ : {A B : Type 0} → M os A → (A → M os B) → M os B
  (m >>= k) w = and_then (m w) k

  abbrev pub ◌>>◌ : {A B : Type 0} → M os A → M os B → M os B
  (m >> n) w = and_then (m w) (λ _. n)

  abbrev pub throw : {A : Type 0} → Text → M os A
  throw message = stopped (throws message)

  abbrev pub fault : {A : Type 0} → M os A
  fault = stopped undefined

  abbrev pub emit : Event → M os (Unit {0})
  emit e w = done tt (record w { trace = w.trace ++ (e ∷ []) })

  -- A system call, which may change the state of the system.
  unfoldable pub system_call : {A : Type 0} → (os.State → A × os.State) → M os A
  system_call f w = let (a, system) = f w.system in done a (record w { system = system })

  -- `*p`: a null pointer and an object that is gone are faults.
  pub load : Ptr → M os Process
  load p w = elim (get_elem? w.heap p) [
    | none ↦ stopped undefined w
    | some none ↦ stopped undefined w
    | some (some x) ↦ done x w
  ]

  unfoldable pub store : Ptr → Process → M os (Unit {0})
  store p x w = done tt (record w { heap = set w.heap p (some x) })

  -- `new Process(…)`: the object's address is the first that is not in use.
  pub new : Process → M os Ptr
  new x w = done (length w.heap) (record w { heap = w.heap ++ (some x ∷ []) })

  -- `delete` behind the destructor
  pub free : Ptr → M os (Unit {0})
  free p w = done tt (record w { heap = set w.heap p none })

  -- `->` on a pointer that may be null
  abbrev pub deref : Option Ptr → M os Ptr
  deref none = fault
  deref (some p) = pure p
