-- ===== src/OldWatcher/Child.antt =====
-- `runprog` of oldwatcher.c in the child, where the program cannot be executed.
use renzoku.Prelude.{pos, ℤ, is_negative, ◌≡◌, refl, false, true, some, [], ◌∷◌}
use renzoku.Text.{Text, bytes}
use renzoku.World.{Os, started, watched}
use renzoku.World.Calls.{
  Makes, Makes-bind, Makes-then, Makes-pure, Makes-wrote, Makes-call, Makes-system, Makes-if,
}
use renzoku.Process.{execute}
use renzoku.OldWatcher.{
  program, perror, print_in_child, runprog_forked, runprog, print_cwd, add_watch, set_up,
}

-- `fork` answers as in the child, and the program cannot be executed.
pub record IsLostChild (os : Os) : Type 0 where
  pub child : (s : os.State) → (os.fork s).0 ≡ pos 0
  pub fails : (s : os.State) → os.exec s true (bytes "./a.out" ∷ bytes "--renzoku" ∷ []) ≡ false

abbrev Anything : {A : Type 0} → A → Type 0
Anything a = Unit

module _ (os : Os) (getpid : os.State → ℤ) (lost : IsLostChild os) where
  Makes-perror : (message : Text) → Makes Anything [] (perror os message)
  unfolding perror
  Makes-perror message = record {
    yields = record { apply = λ w. (Makes-wrote _ _).yields.apply w };
  }

  Makes-execute : Makes Anything [] (execute os true (bytes "./a.out" ∷ bytes "--renzoku" ∷ []))
  unfolding execute
  Makes-execute = record {
    yields = record {
      apply = λ w. rw (execute, lost.fails w.system) ((Makes-pure tt tt).yields.apply w);
    };
  }

  Makes-print_in_child : Makes Anything [] (print_in_child os getpid)
  unfolding print_in_child
  Makes-print_in_child = record {
    yields = record { apply = λ w. (Makes-wrote _ _).yields.apply w };
  }

  Makes-runprog_forked : Makes (λ answer. answer ≡ pos 0) [] (runprog_forked os getpid (pos 0))
  unfolding runprog_forked
  Makes-runprog_forked =
      Makes-then Makes-print_in_child
        (Makes-then Makes-execute (Makes-then (Makes-perror _) (Makes-pure (pos 0) refl)))

  Makes-runprog : Makes (λ pid. pid ≡ pos 0) (started program (pos 0) ∷ []) (runprog os getpid)
  unfolding runprog
  Makes-runprog =
      Makes-bind {P = λ pid. pid ≡ pos 0} (Makes-system os.fork lost.child)
        λ pid e. rw e (Makes-then (Makes-call (started program (pos 0)) refl) Makes-runprog_forked)

  Makes-print_cwd :
      (here : Text)
      → ((s : os.State) → os.getcwd s ≡ some here)
      → Makes (λ found. found ≡ some here) [] (print_cwd os getpid)
  unfolding print_cwd
  Makes-print_cwd here stays = record {
    yields = record {
      apply = λ w.
          rw (print_cwd, stays w.system)
            ((Makes-then (Makes-wrote _ _) (Makes-pure (some here) refl)).yields.apply w);
    };
  }

  Makes-add_watch :
      (fd : ℤ) (here : Text)
      → Makes Anything (watched here ∷ []) (add_watch os getpid fd (some here))
  unfolding add_watch
  Makes-add_watch fd here =
      Makes-bind {P = Anything} (Makes-system (λ s. os.inotify_add_watch s (fd, here)) (λ _. tt))
        λ wd _. Makes-then (Makes-call (watched here) refl) (Makes-pure wd tt)

  -- The child whose `execvp` fails does not end. Where the working directory can be read and does
  -- not change, it goes through the rest of `watcher` like its parent, up to the loop: it returns
  -- with 0 for the id of the program, and what it has done, besides printing, is the start that
  -- made it and a watch of its own on the working directory.
  pub set_up-Makes :
      (here : Text)
      → ((s : os.State) → os.getcwd s ≡ some here)
      → Makes
          (λ x. x.progpid ≡ pos 0)
          (started program (pos 0) ∷ watched here ∷ [])
          (set_up os getpid)
  unfolding set_up
  set_up-Makes here stays = Makes-bind {P = Anything} (Makes-system os.time (λ _. tt)) λ now _.
      Makes-bind Makes-runprog λ pid e. Makes-bind (Makes-print_cwd here stays) λ found f.
        Makes-bind {P = Anything} (Makes-system os.inotify_init (λ _. tt)) λ fd _.
          Makes-then
            (Makes-if (is_negative fd) (Makes-perror (bytes "inotify_init")) (Makes-pure tt tt))
            (rw f (Makes-bind (Makes-add_watch fd here) λ wd _. Makes-pure _ e))
