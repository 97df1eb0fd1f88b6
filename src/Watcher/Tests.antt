-- ===== src/Watcher/Tests.antt =====
-- The watcher on a small system, where each `read` reports a change of the file m.c.
use renzoku.Util.Match.Glob.{Glob, str_match_iff}
use renzoku.World.{InotifyEvent}
use renzoku.Prelude.{List, inl, pos, refl, inr, false, some, [], ◌∷◌, arith}
use renzoku.World.Does.{Returns}
use renzoku.World.Emitted.{Emitted}
use renzoku.World.Example.{small_os, three_processes, main_cpp}
use renzoku.Util.Match.Tests.{header_filter}
use renzoku.Process.Tests.{small_os-IsParent, three_processes-IsReady}
use renzoku.Procman.Tests.{manager, manager-IsComplete}
use renzoku.Config.{empty_config}
use renzoku.Watcher.{Watcher, handle_events}
use renzoku.Watcher.Rebuild.{IsArmed}
use renzoku.Watcher.Idle.{Unmoved, handle_events-Unmoved}

abbrev pub watcher : Watcher
watcher = record {
  directory = b'/' ∷ [];
  recursive = false;
  fds = [];
  config = record (empty_config manager) {
    watch = record { filters = (b'*' ∷ b'.' ∷ b'h' ∷ []) ∷ []; includes = []; excludes = [] };
  };
  inotify = pos 3;
  timer = 0;
  builder = some 0;
}

pub watcher-IsArmed : IsArmed 3 0 2 (1 ∷ []) watcher
watcher-IsArmed = record { builder = refl; complete = manager-IsComplete; listed = refl }

no_header : ¬ Glob (b'*' ∷ b'.' ∷ b'h' ∷ []) (b'm' ∷ b'.' ∷ b'c' ∷ [])
no_header g =
    let e = (str_match_iff (b'*' ∷ b'.' ∷ b'h' ∷ []) (b'm' ∷ b'.' ∷ b'c' ∷ []) (omega arith)).1 g in
    let f = header_filter in absurd (cc)

-- A change of the watched directory, and one of a directory in it.
abbrev directory_events : List InotifyEvent
directory_events =
    record { mask = 2; len = 0; name = [] }
    ∷ record { mask = 0x40000002; len = 16; name = b'a' ∷ [] }
    ∷ []

-- No filter describes the name of the first event, and the others are no changes of files.
handle_events-Unmoved_example :
    Returns
      (Emitted (Unmoved watcher) three_processes)
      (handle_events small_os (main_cpp ∷ directory_events) watcher three_processes)
handle_events-Unmoved_example =
    handle_events-Unmoved small_os small_os-IsParent 0 2 (1 ∷ []) (main_cpp ∷ directory_events)
      watcher three_processes (omega arith, (omega arith, (omega arith, tt))) watcher-IsArmed
      three_processes-IsReady
      (inr (inr (inr (no_header, tt))), (inl refl, (inr (inr (inl (λ e. omega arith))), tt)))
