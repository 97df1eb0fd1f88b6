-- ===== src/Watcher.antt =====
-- src/watcher.cpp and src/watcher.hpp: class Watcher. The manager that it is given is the one
-- that the config refers to, as in `main`.
pub mod Rebuild
pub mod Paced
pub mod Returns
pub mod Idle
pub mod Tree
pub mod Created
pub mod Ended
pub mod Tests
use Prim.Native.Nat.{bit_and}
use renzoku.Prelude.{
  ℕ, zero, suc, ℤ, pos, negsuc, at_most, is_negative, ◌+◌, ◌-◌, Bool, true, false, not, ◌&&◌, ◌||◌,
  Option, none, some, List, [], ◌∷◌, ◌++◌, leb, ◌==◌, if◌then◌else◌,
}
use renzoku.Text.{Text, bytes, text_eq}
use renzoku.World.{
  Os, InotifyEvent, Ptr, cerr, wrote, watched, unwatched, M, ◌>>=◌, ◌>>◌, pure, fault, emit, deref,
  system_call, stopped, out_of_fuel,
}
use renzoku.Log.{debug, info, success, error, log_me, log_error}
use renzoku.Log.Printf.{string, signed, unsigned}
use renzoku.Util.Match.{str_match}
use renzoku.Util.Dirs
use renzoku.Util.Dirs.{cwd, list_dir}
use renzoku.Process.{run_and_wait}
use renzoku.Procman.{restart_all, kill_all}
use renzoku.Config.{Config, get_watch_config}

pub record Watcher : Type 0 where
  pub directory : Text
  pub recursive : Bool
  pub fds : List ℤ
  pub config : Config
  pub inotify : ℤ
  pub timer : ℕ
  pub builder : Option Ptr

abbrev pub in_modify : ℕ
in_modify = 0x2

abbrev pub in_isdir : ℕ
in_isdir = 0x40000000

-- The condition on an event: it has a name, and is a change of a file.
unfoldable pub is_file_change : InotifyEvent → Bool
is_file_change event =
    not (event.len == 0)
    && (not (bit_and event.mask in_modify == 0) && bit_and event.mask in_isdir == 0)

unfoldable pub is_dot : Text → Bool
is_dot dir = text_eq dir (bytes ".") || text_eq dir (bytes "..")

-- `maindir + '/' + dir`
unfoldable pub sub_path : Text → Text → Text
sub_path maindir dir = maindir ++ (b'/' ∷ dir)

module _ (os : Os) where
  -- `mFDs.push_back(inotify_add_watch(mINotify, path, IN_MODIFY))`
  pub add_watch : Text → Watcher → M os Watcher
  add_watch path x = do
    fd ← system_call (λ s. os.inotify_add_watch s (x.inotify, path))
    emit (watched path)
    pure (record x { fds = x.fds ++ (fd ∷ []) })

  -- The loop of `recursiveWatch` over the directories of `maindir`; `visit` is the recursive
  -- call.
  pub watch_one : (Text → Watcher → M os Watcher) → Text → Text → Watcher → M os Watcher
  watch_one visit maindir dir x =
      if is_dot dir
      then pure x
      else (do added ← add_watch (sub_path maindir dir) x; visit (sub_path maindir dir) added)

  pub watch_each : (Text → Watcher → M os Watcher) → Text → List Text → Watcher → M os Watcher
  watch_each visit maindir [] x = pure x
  watch_each visit maindir (dir ∷ dirs) x = do
    next ← watch_one visit maindir dir x
    watch_each visit maindir dirs next

  -- `recursiveWatch`, on fuel for the depth of the directories.
  pub recursive_watch : ℕ → Text → Watcher → M os Watcher
  recursive_watch zero maindir x = λ w. stopped out_of_fuel w
  recursive_watch (suc fuel) maindir x = do
    dirs ← list_dir os maindir Dirs.directory
    watch_each (recursive_watch fuel) maindir dirs x

  -- `inotify_init()` in the constructor and in `watchDirectory`
  pub init_inotify : Watcher → M os Watcher
  init_inotify x = do fd ← system_call os.inotify_init; pure (record x { inotify = fd })

  -- `if( mINotify < 0 ) perror("inotify_init")`
  pub perror_inotify : Watcher → M os (Unit {0})
  perror_inotify x w =
      (if is_negative x.inotify
          then emit (
              wrote cerr
                (bytes "inotify_init: " ++ (os.strerror (os.errno w.system) ++ bytes "\n")))
          else pure tt)
        w

  pub watch_directory : ℕ → Watcher → M os Watcher
  watch_directory fuel x = do
    opened ← init_inotify x
    perror_inotify opened
    here ← cwd os
    added ← add_watch here opened
    if added.recursive then (do main ← cwd os; recursive_watch fuel main added) else pure added

  -- The constructor.
  pub new_watcher : ℕ → Text → Config → Bool → M os Watcher
  new_watcher fuel dir conf recursive = do
    now ← system_call os.time
    let x : Watcher = record {
      directory = dir;
      recursive = recursive;
      fds = [];
      config = conf;
      inotify = pos 0;
      timer = now - 15;
      builder = conf.procman.build_step;
    }
    opened ← init_inotify x
    watch_directory fuel opened

  pub remove_watches : ℤ → List ℤ → M os (Unit {0})
  remove_watches inotify [] = pure tt
  remove_watches inotify (fd ∷ fds) = do
    system_call (λ s. os.inotify_rm_watch s (inotify, fd))
    emit (unwatched fd)
    remove_watches inotify fds

  -- The destructor, up to the `close` of the descriptor.
  pub destroy : Watcher → M os (Unit {0})
  destroy x = do kill_all os x.config.procman; remove_watches x.inotify x.fds

  pub rebuild : Watcher → M os Bool
  rebuild x = do
    b ← deref x.builder
    status ← run_and_wait os b
    if status
        then log_me os success (bytes "Successfully rebuilt project") []
        else log_me os error (bytes "Project failed to rebuild") []
    pure status

  pub restart_program : Watcher → M os (Unit {0})
  restart_program x = restart_all os x.config.procman

  -- Behind a rebuild that succeeded.
  pub restart_after : ℕ → Watcher → M os Watcher
  restart_after due x = do
    log_me os debug (bytes "%ju") (unsigned due ∷ [])
    now ← system_call os.time
    let next = record x { timer = now }
    restart_program next
    pure next

  pub rebuild_and_restart : ℕ → Watcher → M os Watcher
  rebuild_and_restart due x = do ok ← rebuild x; if ok then restart_after due x else pure x

  -- A file that matches a filter: it is built where the last restart is five seconds old.
  pub on_match : Text → Watcher → M os Watcher
  on_match name x = do
    log_me os info (27 ∷ bytes "[0;32m=> File %s was modified!" ++ (27 ∷ bytes "[0m"))
        (string name ∷ [])
    let due = os.mktime_after x.timer 5
    now ← system_call os.time
    if leb due now then rebuild_and_restart due x else pure x

  -- The loop over the filters.
  pub try_filter : Text → Text → Watcher → M os Watcher
  try_filter filter name x = elim (str_match filter name) [
    | none ↦ fault
    | some false ↦ pure x
    | some true ↦ on_match name x
  ]

  pub try_filters : List Text → Text → Watcher → M os Watcher
  try_filters [] name x = pure x
  try_filters (filter ∷ filters) name x = do
    next ← try_filter filter name x
    try_filters filters name next

  -- The body of the loop over the events.
  pub handle_event : InotifyEvent → Watcher → M os Watcher
  handle_event event x = do
    log_me os debug (bytes "File %s -> 0x%x!") (string event.name ∷ unsigned event.mask ∷ [])
    if is_file_change event
        then try_filters (get_watch_config x.config).filters event.name x
        else pure x

  pub handle_events : List InotifyEvent → Watcher → M os Watcher
  handle_events [] x = pure x
  handle_events (event ∷ events) x = do next ← handle_event event x; handle_events events next

  -- Behind a `select` that reports the descriptor.
  pub read_events : Watcher → M os Watcher
  read_events x = do
    answer ← system_call (λ s. os.read s x.inotify)
    if at_most answer.0 0 then log_error os (bytes "read") else pure tt
    log_me os debug (bytes "Event buffer size: %d") (signed answer.0 ∷ [])
    if at_most answer.0 0 then pure x else handle_events answer.1 x

  pub listen_on : ℤ → Watcher → M os Watcher
  listen_on (pos (suc zero)) x = read_events x
  listen_on (negsuc k) x = do log_error os (bytes "select"); pure x
  listen_on _ x = pure x

  pub listen : Watcher → M os Watcher
  listen x = do selval ← system_call (λ s. os.select s x.inotify); listen_on selval x
