-- ===== src/Main/Finish.antt =====
-- The loop of `main` in src/main.cpp until SIGINT, and the destructors behind it.
use renzoku.Prelude.{
  ℕ, suc, ℤ, ◌≡◌, refl, ap, subst, sym, ◌∙◌, Bool, true, false, some, none, List, [], ◌∷◌, ◌++◌,
  get_elem?, replicate, append-nil, All,
}
use renzoku.World.{Os, World, Ptr, Run, M, pure, and_then, ◌>>=◌, ◌>>◌}
use renzoku.World.Does.{
  Does, Any, After, Returns, returns, Does-emit, Does-pure, Does-then, started_by,
}
use renzoku.World.Starts.{Started, Starts, Starts-bind, Starts-then, Starts-Does, Starts-pure}
use renzoku.World.Ends.{Ends, returned, raised}
use renzoku.Process.Starts.{IsParent}
use renzoku.Log.{delete_stdout_logger, shutdown}
use renzoku.Procman
use renzoku.Procman.{ProcessManager}
use renzoku.Procman.Apart.{IsApart}
use renzoku.Procman.Destroy.{AreGone, pointers, destroy-AreGone}
use renzoku.Config.Plan.{Plan}
use renzoku.Watcher
use renzoku.Watcher.{Watcher}
use renzoku.Watcher.Rebuild.{Rebuilds, IsArmed, Rebuilt}
use renzoku.Watcher.Returns.{IsNamed}
use renzoku.Watcher.Ended.{Does-destroy}
use renzoku.Main.{running, signal_catch_int, listen_while}
use renzoku.Main.Loop.{rounds_then_handler, listen_while-rounds}
use renzoku.Main.Rounds.{Starts-listen_rounds}
use renzoku.Main.Started.{IsStarted, all_live, same_manager}

-- `main` has returned 0. What it has started is a sequence of rebuilds of the build step, the
-- processes and the program of the watcher `x`, and all of these objects are gone.
pub record IsFinished {os : Os} (x : Watcher) (w : World os) (code : ℕ) (w' : World os)
    : Type 0 where
  pub success : code ≡ 0
  pub builder : Ptr
  pub program : Ptr
  pub processes : List Ptr
  pub build_step : x.config.procman.build_step ≡ some builder
  pub run : x.config.procman.program ≡ some program
  pub listed : x.config.procman.processes ≡ processes
  pub starts : List Ptr
  pub grown : started_by w'.trace ≡ started_by w.trace ++ starts
  pub rebuilds : Rebuilds builder processes program starts
  pub gone : All (λ p. get_elem? w'.heap p ≡ some none) (processes ++ (builder ∷ program ∷ []))

module _ (os : Os) where
  -- The destructors, and the result.
  abbrev pub close_down : Watcher → M os ℕ
  close_down last = do Watcher.destroy os last; Procman.destroy os last.config.procman; pure 0

module _ (os : Os) (parent : IsParent os)
    (named : (s : os.State) (fd : ℤ) → All IsNamed (os.read s fd).0.1) where
  Does-signal_catch_int : {n : ℕ} → Does n Any [] (signal_catch_int os running)
  unfolding signal_catch_int started_by
  Does-signal_catch_int = Does-then (Does-emit _) (Does-pure tt)

  Starts-rounds_then_handler :
      {n : ℕ} (b p : Ptr) (processes : List Ptr) (k : ℕ) (x : Watcher)
      → IsArmed n b p processes x
      → Starts n (Rebuilt n b p processes) (rounds_then_handler os k x)
  Starts-rounds_then_handler b p processes k x v =
      Starts-bind (Starts-listen_rounds os parent b p processes named (suc k) x v)
        λ last ps (v', g).
          Starts-then {R = λ _ qs. qs ≡ []}
            (Starts-Does {P = Any} (λ _ _. refl) Does-signal_catch_int)
            λ _ qs e. Starts-pure last (v', rw (e, append-nil ps) g)

  closed :
      {n : ℕ} (b p : Ptr) (processes : List Ptr) (x last : Watcher) (w u : World os) (ps : List Ptr)
      (r : Run os (Unit {0}))
      → IsArmed n b p processes x
      → IsArmed n b p processes last
      → IsApart n last.config.procman
      → started_by u.trace ≡ started_by w.trace ++ ps
      → Rebuilds b processes p ps
      → Returns (λ _ v. Any {A = Unit {0}} tt × After n u [] v) r
      → Returns
          (IsFinished x w)
          (and_then r (λ _. Procman.destroy os last.config.procman >> pure 0))
  closed {n} b p processes x last w u ps r first armed apart grown g (returns {w = v'} (_, after)) =
      let pm = last.config.procman in
      ended (
        destroy-AreGone os pm v' apart (all_live n v' _ after.ready armed.complete.processes_below)
          (rw armed.complete.build_step
            (all_live n v' (b ∷ []) after.ready (armed.complete.builder_below, tt)))
          (rw armed.complete.program
            (all_live n v' (p ∷ []) after.ready (armed.complete.program_below, tt))))
    where
      ended :
          {run : Run os (Unit {0})}
          → Ends (λ _ w'. AreGone (pointers last.config.procman) v' w') ⊥ run
          → Returns (IsFinished x w) (and_then run (λ _. pure 0))
      ended (returned gone) = returns (record {
        success = refl;
        builder = b;
        processes = processes;
        program = p;
        build_step = first.complete.build_step;
        run = first.complete.program;
        listed = first.listed;
        starts = ps;
        grown = gone.starts ∙ after.starts ∙ rw grown (append-nil (started_by w.trace ++ ps));
        rebuilds = g;
        gone = (rw (armed.complete.build_step, armed.complete.program, armed.listed) at gone.gone);
      })
      ended (raised e) = absurd e

  after_loop :
      {n : ℕ} (b p : Ptr) (processes : List Ptr) (x : Watcher) (w u : World os) (r : Run os Watcher)
      → IsArmed n b p processes x
      → IsApart n x.config.procman
      → started_by u.trace ≡ started_by w.trace
      → Returns (λ last v. Started n u (Rebuilt n b p processes last) v) r
      → Returns (IsFinished x w) (and_then r (close_down os))
  unfolding delete_stdout_logger shutdown
  after_loop {n} b p processes x w u r armed apart t (returns {a = last} {w = v} s) =
      let later = s.fits.0 in
      let same =
        same_manager x.config.procman last.config.procman
          (armed.complete.build_step ∙ sym later.complete.build_step)
          (armed.listed ∙ sym later.listed) (armed.complete.program ∙ sym later.complete.program) in
      closed b p processes x last w v s.starts (Watcher.destroy os last v) armed later
        (subst (IsApart n) same apart) (s.grown ∙ ap (λ es. es ++ s.starts) t) s.fits.1
        ((Does-destroy os last later).apply v s.ready)

  -- The loop and the destructors behind it, from the world in which the watcher stands.
  pub finish :
      (plan : Plan) (k : ℕ) (arrivals : List Bool) (x : Watcher) (w u : World os)
      → IsStarted plan w x u
      → Returns
          (IsFinished x w)
          ((listen_while os (replicate k false ++ (true ∷ arrivals)) running x >>= close_down os) u)
  finish plan k arrivals x w u h =
      let ps = x.config.procman.processes in
      rw (listen_while-rounds os k arrivals x u) (
        after_loop h.builder h.program ps x w u (rounds_then_handler os k x u) h.armed h.apart
          h.starts
          ((Starts-rounds_then_handler h.builder h.program ps k x h.armed).apply u h.ready))
