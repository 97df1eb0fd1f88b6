-- ===== src/Watcher/Created.antt =====
-- The constructor of Watcher in src/watcher.cpp, with `watchDirectory`.
use renzoku.Prelude.{
  ℕ, is_negative, ◌≤◌, ◌≡◌, refl, sym, ◌∙◌, true, false, some, List, [], ◌∷◌, map, arith, length,
  append-nil,
}
use renzoku.Text.{Text}
use renzoku.World.{Os, Event, watched}
use renzoku.World.Does.{returns}
use renzoku.World.Emitted.{
  Yields, Yields-map, Yields-bind, Yields-then, Yields-pure, Yields-system, Yields-if,
}
use renzoku.Util.Dirs.{cwd}
use renzoku.Util.Dirs.Laws.{cwd_lem}
use renzoku.Config.{Config}
use renzoku.Watcher.{Watcher, init_inotify, perror_inotify, watch_directory, new_watcher}
use renzoku.Watcher.Tree.{
  Forest, paths, height, IsTree, Watched, Watched-append, Yields-add_watch, recursive_watch-Watched,
}

-- A watcher that differs from `x` in its descriptor of inotify, which is not negative.
abbrev Opened : Watcher → Watcher → List Event → Type 0
Opened x y es =
    (es ≡ [])
    × ((is_negative y.inotify ≡ false)
        × ((y.fds ≡ x.fds)
            × ((y.config ≡ x.config) × ((y.builder ≡ x.builder) × (y.recursive ≡ x.recursive)))))

-- The new watcher has the config and its build step, and watches the paths.
abbrev pub Created : Config → List Text → Watcher → List Event → Type 0
Created conf ps x es =
    (es ≡ map watched ps)
    × ((length x.fds ≡ length ps) × ((x.config ≡ conf) × (x.builder ≡ conf.procman.build_step)))

module _ (os : Os) (here : Text) (f : Forest)
    (opens : (s : os.State) → is_negative (os.inotify_init s).0 ≡ false)
    (stays : (s : os.State) → os.getcwd s ≡ some here) (tree : IsTree os here f) where
  Yields-cwd : Yields (λ dir es. (dir ≡ here) × (es ≡ [])) (cwd os)
  Yields-cwd = record {
    apply = λ w. rw (cwd_lem os here w (stays w.system)) (
        returns
          (record { events = []; grown = sym (append-nil w.trace); holds = (refl, refl) }, refl));
  }

  Yields-init_inotify : (x : Watcher) → Yields (Opened x) (init_inotify os x)
  unfolding init_inotify
  Yields-init_inotify x =
      Yields-bind {R = λ fd es. (is_negative fd ≡ false) × (es ≡ [])}
        (Yields-system os.inotify_init (λ s. (opens s, refl)))
        λ fd es (n, e).
          Yields-pure (record x { inotify = fd }) (rw e, (n, (refl, (refl, (refl, refl)))))

  Yields-perror_inotify :
      (x : Watcher) → is_negative x.inotify ≡ false → Yields (λ _ es. es ≡ []) (perror_inotify os x)
  unfolding perror_inotify
  Yields-perror_inotify x n = record {
    apply = λ w.
        rw n
          (returns (record { events = []; grown = sym (append-nil w.trace); holds = refl }, refl));
  }

  Yields-watch_directory :
      (fuel : ℕ) (x : Watcher)
      → height f ≤ fuel
      → x.recursive ≡ true
      → Yields (Watched x (here ∷ paths here f)) (watch_directory os fuel x)
  unfolding watch_directory
  Yields-watch_directory fuel x h deep =
      Yields-bind (Yields-init_inotify x) λ y es (e, (n, (k, (c, (d, r))))).
        Yields-then (Yields-perror_inotify y n) λ _ es1 e1.
          Yields-bind Yields-cwd λ dir es2 (e2, g2).
            Yields-bind (Yields-add_watch os dir y) λ z es3 (e3, (k3, (c3, (d3, r3)))).
              Yields-if z.recursive
                (λ _. Yields-bind Yields-cwd λ main es4 (e4, g4). rw e4 (
                  Yields-map
                    (λ z' fs t.
                      rw (e, e1, g2, g4)
                        (Watched-append x z z' (here ∷ []) (paths here f) es3 fs
                          (rw (← e2) e3, (rw (← k) k3, (c3 ∙ c, (d3 ∙ d, r3 ∙ r)))) t))
                    (recursive_watch-Watched os fuel here f z h tree)))
                (λ flat. let still : z.recursive ≡ true = r3 ∙ r ∙ deep in absurd (cc))

  pub new_watcher-Created :
      (fuel : ℕ) (dir : Text) (conf : Config)
      → height f ≤ fuel
      → Yields (Created conf (here ∷ paths here f)) (new_watcher os fuel dir conf true)
  unfolding new_watcher
  new_watcher-Created fuel dir conf h =
      Yields-bind {R = λ now es. es ≡ []} (Yields-system os.time (λ s. refl)) λ now es e.
        Yields-bind (Yields-init_inotify _) λ x es1 (e1, (n, (k, (c, (d, r))))).
          Yields-map
            (λ x' fs (g, (l, (c', (d', r')))).
              (rw (e, e1) g, (l ∙ rw k (omega arith), (c' ∙ c, d' ∙ d))))
            (Yields-watch_directory fuel x h r)
