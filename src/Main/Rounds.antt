-- ===== src/Main/Rounds.antt =====
-- The loop of `main` in src/main.cpp.
use renzoku.Prelude.{ℕ, zero, suc, ℤ, List, All}
use renzoku.World.{Os, World, Ptr}
use renzoku.World.Does.{IsReady, Returns}
use renzoku.World.Starts.{Started, Starts, Starts-map, Starts-bind, Starts-pure}
use renzoku.Process.Starts.{IsParent}
use renzoku.Watcher.{Watcher}
use renzoku.Watcher.Rebuild.{rest, Rebuilds-append, IsArmed, Rebuilt}
use renzoku.Watcher.Returns.{IsNamed, Starts-listen}
use renzoku.Main.{listen_rounds}

module _ (os : Os) (parent : IsParent os) {n : ℕ} (b p : Ptr) (processes : List Ptr)
    (named : (s : os.State) (fd : ℤ) → All IsNamed (os.read s fd).0.1) where
  pub Starts-listen_rounds :
      (rounds : ℕ) (x : Watcher)
      → IsArmed n b p processes x
      → Starts n (Rebuilt n b p processes) (listen_rounds os rounds x)
  unfolding listen_rounds
  Starts-listen_rounds zero x v = Starts-pure x (v, rest)
  Starts-listen_rounds (suc rounds) x v =
      Starts-bind (Starts-listen os parent b p processes named x v) λ x' ps (v', g).
        Starts-map (λ x'' qs (v'', h). (v'', Rebuilds-append ps qs g h))
          (Starts-listen_rounds rounds x' v')

  -- The loop of `main` returns after any number of rounds under the conditions of
  -- `listen-Rebuilds`, all that it has started is a sequence of rebuilds, and the watcher is
  -- still armed.
  pub listen_rounds-Rebuilds :
      (rounds : ℕ) (x : Watcher) (w : World os)
      → IsArmed n b p processes x
      → IsReady n w
      → Returns (λ x' w'. Started n w (Rebuilt n b p processes x') w') (listen_rounds os rounds x w)
  listen_rounds-Rebuilds rounds x w v r = (Starts-listen_rounds rounds x v).apply w r
