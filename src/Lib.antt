-- ===== src/Lib.antt =====
-- Renzoku watches the files of a project. When one of them changes, it builds the project, runs
-- the tests and starts the program again. It is written in C++ (src/*.cpp) and runs on Linux.
--
-- The parts, and the files that model them:
--   * Util models src/util.cpp and src/exceptions.cpp. Util/Match is `strMatch`, Util/Command is
--     `parseCommand` and Util/Command/Memory the arrays that it allocates, Util/Dirs is `cwd`,
--     `listDir` and CException, Util/Lowercase is `lowercase` and `lowercase_r`, Util/Clock is
--     `getCurrentDateTime`. Text is the part of `std::string` and of `size_t` that they use.
--   * Log models src/log.cpp and src/log.hpp: `createMessage`, `createCErrorMessage`, `LogMe`,
--     LOG_ERROR, and the stream that each of the two loggers prints to. Log/Printf is the part of
--     `vsnprintf` that the program's formats use.
--   * Process models src/process.cpp and src/process.hpp, a command and the operating system
--     process that runs it; Process/Arguments is the buffer that the child fills with the
--     arguments, and Process/Memory the array of the command, from the constructors to the
--     destructor.
--   * Procman models src/procman.cpp and src/procman.hpp, the build step, the other processes and
--     the program, with the order in which they are stopped and started.
--   * Config models src/config.cpp and src/config.hpp. Config/Watch is the section `watch`. Yaml
--     is the interface to the nodes of yaml-cpp. Config/Plan says what a file asks for, without
--     processes and addresses; Config/Refine compares the two, and Config/Order is about the
--     order of the sections, which Config/Refine/Sections forgets in a quotient. Config/Memory is
--     the destructor, over the arrays that the commands of a file have left.
--   * Watcher models src/watcher.cpp and src/watcher.hpp: the watches on directories, and
--     `listen`, which waits for events and rebuilds.
--   * Main models src/main.cpp and src/signals.cpp.
--   * Tokenizer models src/tokenizer.cpp, a stub that nothing uses.
--   * OldWatcher models oldwatcher.c, the prototype in C, over the same system calls.
--   * UnitTests runs tests/test_config.cpp, parts of tests/test_util.cpp and
--     tests/test_tokenizer.cpp on the model.
--   * World is what these share at run time. Prelude holds numbers, lists and Boolean tests.
--
-- How the code becomes definitions. A function or method of the source is a definition of the
-- same name in lower case with underscores (`runAndWait` is `run_and_wait`); the body of a loop
-- or of a branch is one of its own. The definitions of Util that touch no system are pure
-- functions, with `none` where the source throws or reads outside a string. All others are calls
-- in `M os`: a call takes a World, which has the state of the operating system, the class of the
-- logger, the heap of Process objects and the events so far, and is `done` with a value and a
-- World, or `stopped` by an exception, `abort`, `exit`, `exec` or undefined behaviour. A Process
-- is reached by its address, so that the builder of the watcher and the build step of the manager
-- are one object. The manager is a part of the Config, which is the only one to change it while
-- the file is read.
--
-- The operating system is a record Os of functions on an unknown state, a parameter of everything
-- that uses it, and so is yaml-cpp. A condition on them, such as IsParent, that `fork` does not
-- answer as in the child, is written out where it is needed. World/Example and the Tests files
-- have concrete ones. World/Calls is the logic of what a run does besides printing. World/Clocked
-- says what it is for the system to have a clock that does not go back; World/Paces is the logic
-- of what a run starts in how much time.
--
-- Memory. The objects of class Process live on the heap of a World, and their commands are lists
-- of words there, freed by one event. The `char**` of a command is modelled on its own: a memory
-- is a list of blocks, an address is a place in it, `new[]` takes the next place, and `delete[]`
-- empties one, so that an address is never used again and a second `delete[]` of it is undefined.
--
-- Bounds and fuel. A `size_t` wraps at 2^64. The scan of `parseCommand` has a round of fuel for
-- each byte and one more, and each round moves on by one byte at least or ends. Numbers are
-- printed with a round for each unit. `recursiveWatch` has fuel for the depth of the directories
-- and stops with `out_of_fuel` where a directory lies deeper; the levels of a tree are enough.
-- The loop of `main` takes a list that says in which of its rounds SIGINT arrives; the list is
-- the fuel, and the first arrival ends the loop, so a list that has one is enough. The handler is
-- taken to run at the end of its round. In the prototype it runs when `read` returns, or with an
-- event, before the test of `gRunning` or behind it. The clock is past its first 15 seconds, so
-- that `time(0)-15` is no negative number.
--
-- Not modelled: the tests that read files, run processes or only print; i_configfile.hpp, which
-- nothing uses; the prototype under #ifdef DEBUG in src/watcher.cpp, which cannot be compiled,
-- since it uses `gRunning`, `ends_with` and `runprog` ahead of any declaration, and under #ifdef
-- NOBUILD in src/process.cpp the functions that it alone calls; the code under #if 0 in
-- src/config.cpp; `removeWatch` and `watchFileType`, which are empty; the closing of the log
-- file; the interruption of a system call by a signal.
pub mod Prelude
pub mod Text
pub mod World
pub mod Log
pub mod Process
pub mod Procman
pub mod Yaml
pub mod Config
pub mod Watcher
pub mod Main
pub mod Util
pub mod OldWatcher
pub mod Tokenizer
pub mod UnitTests
