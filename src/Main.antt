-- ===== src/Main.antt =====
-- src/main.cpp and src/signals.cpp: the driver, and the flag that the signal handler clears.
pub mod Rounds
pub mod Paced
pub mod Loop
pub mod Started
pub mod Finish
pub mod Whole
pub mod Refused
pub mod Example
pub mod Tests
use renzoku.Prelude.{ℕ, zero, suc, Bool, true, false, List, [], Option, ◌∷◌, ◌++◌}
use renzoku.Text.{Text, bytes}
use renzoku.Yaml.{Yaml}
use renzoku.World.{Os, cerr, wrote, stopped, out_of_fuel, M, ◌>>=◌, ◌>>◌, pure, emit}
use renzoku.Log.{new_stdout_logger, delete_stdout_logger}
use renzoku.Procman
use renzoku.Config.{config_from_file}
use renzoku.Watcher
use renzoku.Watcher.{Watcher, new_watcher, listen}

-- `gRunning`, with what the two functions of main.hpp do to it.
abbrev pub running : ℕ
running = 1

pub program_is_running : ℕ → ℕ
program_is_running flag = flag

pub stop_program : ℕ → ℕ
stop_program flag = 0

module _ (os : Os) where
  -- `signal_catch_int`: the new value of the flag, and the line that it prints.
  pub signal_catch_int : ℕ → M os ℕ
  signal_catch_int flag = do
    let stopped_flag = stop_program flag
    emit (
        wrote cerr (
          27 ∷ bytes "[0;31m=> Caught deadly SIGINT, termination immenent!"
          ++ (27 ∷ bytes "[0m\n")))
    pure stopped_flag

  -- `while(gRunning) w.listen();`, where the flag is found set `rounds` times.
  pub listen_rounds : ℕ → Watcher → M os Watcher
  listen_rounds zero x = pure x
  listen_rounds (suc rounds) x = do next ← listen os x; listen_rounds rounds next

  -- The handler runs where SIGINT arrives.
  pub interrupt : Bool → ℕ → M os ℕ
  interrupt true flag = signal_catch_int flag
  interrupt false flag = pure flag

  -- `while(gRunning) w.listen();`, with the rounds in which SIGINT arrives. The handler is taken
  -- to run at the end of its round; that it cuts a system call short is an answer of that call.
  -- The list stands for as many rounds as are looked at.
  pub listen_while : List Bool → ℕ → Watcher → M os Watcher
  listen_while arrivals zero x = pure x
  listen_while [] (suc flag) x = λ w. stopped out_of_fuel w
  listen_while (arrives ∷ arrivals) (suc flag) x = do
    next ← listen os x
    after ← interrupt arrives (suc flag)
    listen_while arrivals after next

module _ (y : Yaml) (os : Os) where
  -- The objects before the loop. `file` is what stands in `renzoku.conf`, if it opens.
  pub start_up : ℕ → Option Text → M os Watcher
  start_up fuel file = do
    new_stdout_logger os
    config ← config_from_file y os Procman.empty file
    new_watcher os fuel (bytes "./") config true

  -- `main`, with the arrivals of SIGINT before the loop and in its rounds. The destructors run in
  -- the reverse order of the objects, and that of Config frees memory alone.
  pub main : ℕ → Option Text → Bool → List Bool → M os ℕ
  main fuel file early arrivals = do
    x ← start_up fuel file
    flag ← interrupt os early running
    last ← listen_while os arrivals flag x
    Watcher.destroy os last
    Procman.destroy os last.config.procman
    delete_stdout_logger os
    pure 0
