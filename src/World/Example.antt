-- ===== src/World/Example.antt =====
-- A small system for the tests: each `fork` gives the child 7, which ends with status 0, and the
-- descriptors are 3. Its state counts the calls.
use renzoku.Prelude.{ℕ, pos, ◌+◌, true, false, some, [], ◌∷◌}
use renzoku.World.{Os, World, Process, InotifyEvent, stdout_logger}

abbrev pub main_cpp : InotifyEvent
main_cpp = record { mask = 2; len = 16; name = b'm' ∷ b'.' ∷ b'c' ∷ [] }

abbrev pub small_os : Os
small_os = record {
  State = ℕ;
  fork = λ s. (pos 7, s + 1);
  waitpid = λ s pid no_hang. (record { pid = pid; status = 0 }, s + 1);
  kill = λ s pid signal. (true, s + 1);
  exec = λ s in_path command. true;
  errno = λ s. 0;
  strerror = λ code. [];
  time = λ s. (s, s + 1);
  localtime = λ seconds. record {
    tm_year = 0;
    tm_mon = 0;
    tm_mday = 0;
    tm_hour = 0;
    tm_min = 0;
    tm_sec = 0;
  };
  getcwd = λ s. some (b'/' ∷ []);
  lstat = λ s path. some true;
  opendir = λ s path. some [];
  inotify_init = λ s. (pos 3, s + 1);
  inotify_add_watch = λ s watch. (pos 1, s + 1);
  inotify_rm_watch = λ s watch. (true, s + 1);
  select = λ s fd. (pos 1, s + 1);
  read = λ s fd. ((pos 32, main_cpp ∷ []), s + 1);
  mktime_after = λ t n. t + n;
}

-- A process of one word that ran as 7.
abbrev pub make : Process
make = record {
  proc = pos 7;
  search_in_path = true;
  generated_command = false;
  enabled = true;
  command = (b'm' ∷ []) ∷ [];
}

-- A world with a build step at 0, a test at 1 and a program at 2.
abbrev pub three_processes : World small_os
three_processes = record {
  system = 0;
  logger = stdout_logger;
  heap = some make ∷ some make ∷ some make ∷ [];
  trace = [];
}
