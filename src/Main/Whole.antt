-- ===== src/Main/Whole.antt =====
-- `main` of src/main.cpp from its first line to its last.
pub mod Tests
use renzoku.Prelude.{
  ℕ, ℤ, is_negative, ◌≤◌, ◌≡◌, refl, subst, sym, ◌∙◌, Bool, true, false, Option, some, none, List,
  ◌∷◌, ◌++◌, replicate, All,
}
use renzoku.Text.{Text, bytes}
use renzoku.Yaml.{Yaml}
use renzoku.Log.{new_stdout_logger, startup, delete_stdout_logger, shutdown}
use renzoku.World.{stdout_logger, Os, World, Run, done, M, ◌>>=◌, and_then}
use renzoku.World.Does.{Callable, Returns, returns}
use renzoku.World.Ends.{Ends, returned, raised}
use renzoku.Process.Starts.{IsParent}
use renzoku.Procman.{empty}
use renzoku.Config.{Config, config_from_file}
use renzoku.Config.Commands.{IsBounded}
use renzoku.Config.Plan.{Plan, no_plan, plan_of}
use renzoku.Config.Holds.{IsNamedPlan, Holds}
use renzoku.Config.Refine.{Follows}
use renzoku.Config.Refine.Document.{IsDocument, Follows-after, config_from_file-Follows}
use renzoku.Watcher.{Watcher, new_watcher}
use renzoku.Watcher.Tree.{Forest, paths, height, IsTree}
use renzoku.Watcher.Created.{new_watcher-Created}
use renzoku.Watcher.Returns.{IsNamed}
use renzoku.Main.{running, interrupt, listen_while, start_up, main}
use renzoku.Main.Loop.{and_then_assoc, and_then-ap}
use renzoku.Main.Started.{IsStarted, IsStarted-watcher}
use renzoku.Main.Finish.{IsFinished, close_down, finish}

module _ (y : Yaml) (os : Os) where
  -- A document, what it asks for, and the directories below the one that `main` runs in.
  pub record IsSetUp (fuel : ℕ) (file : Text) (plan : Plan) (here : Text) (f : Forest)
      : Type 0 where
    pub node : y.Node
    pub loaded : y.load file ≡ some node
    pub document : IsDocument y os node
    pub planned : plan_of y (y.entries node) no_plan ≡ some plan
    pub commands : IsNamedPlan plan
    pub build : List Text
    pub builds : plan.build ≡ some build
    pub run : List Text
    pub runs : plan.run ≡ some run
    pub opens : (s : os.State) → is_negative (os.inotify_init s).0 ≡ false
    pub stays : (s : os.State) → os.getcwd s ≡ some here
    pub tree : IsTree os here f
    pub deep : height f ≤ fuel

  watcher_of_config :
      (fuel : ℕ) (file : Text) (plan : Plan) (here : Text) (f : Forest) (w : World os)
      (r : Run os Config) (s : IsSetUp fuel file plan here f)
      → Ends
          (Follows (plan_of y (y.entries s.node) no_plan) w)
          (plan_of y (y.entries s.node) no_plan ≡ none)
          r
      → Returns
          (λ x w'. IsStarted plan w x w')
          (and_then r (λ config. new_watcher os fuel (bytes "./") config true))
  watcher_of_config fuel file plan here f w r s (returned {a = c} {w = u} t) =
      let planned = t.planned in
      let known = s.planned in
      let same : t.plan ≡ plan = cc in
      IsStarted-watcher plan s.build s.run (here ∷ paths here f) c w u _ s.builds s.runs s.commands
        (subst (λ p. Holds p c u.heap) same t.holds) t.starts
        ((new_watcher-Created os here f s.opens s.stays s.tree fuel (bytes "./") c s.deep).apply u)
  watcher_of_config fuel file plan here f w r s (raised e) = let known = s.planned in absurd (cc)

  start_up-IsStarted :
      (bounded : IsBounded y) (fuel : ℕ) (file : Text) (plan : Plan) (here : Text) (f : Forest)
      (w : World os)
      → IsSetUp fuel file plan here f
      → All Callable w.heap
      → Returns (λ x w'. IsStarted plan w x w') (start_up y os fuel (some file) w)
  unfolding start_up new_stdout_logger startup
  start_up-IsStarted bounded fuel file plan here f w s callable =
      watcher_of_config fuel file plan here f w _ s (
        Follows-after refl (
          config_from_file-Follows y os bounded file s.node (record w { logger = stdout_logger })
            s.loaded s.document callable))

  main_lem :
      (fuel : ℕ) (file : Option Text) (arrivals : List Bool) (w : World os)
      → main y os fuel file false arrivals w
        ≡ and_then
            (start_up y os fuel file w)
            (λ x. listen_while os arrivals running x >>= close_down os)
  unfolding main interrupt delete_stdout_logger shutdown
  main_lem fuel file arrivals w = refl

  -- `main` has set up a watcher whose config holds the plan, and has then returned as
  -- `IsFinished` says.
  pub record HasRun (fuel : ℕ) (file : Text) (plan : Plan) (w : World os) (code : ℕ) (w' : World os)
      : Type 0 where
    pub watcher : Watcher
    pub middle : World os
    pub started : start_up y os fuel (some file) w ≡ done watcher middle
    pub holds : Holds plan watcher.config middle.heap
    pub finished : IsFinished watcher w code w'

  rest_of_main :
      (parent : IsParent os) (named : (s : os.State) (fd : ℤ) → All IsNamed (os.read s fd).0.1)
      (fuel : ℕ) (file : Text) (plan : Plan) (k : ℕ) (arrivals : List Bool) (w : World os)
      (r : Run os Watcher)
      → start_up y os fuel (some file) w ≡ r
      → Returns (λ x w'. IsStarted plan w x w') r
      → Returns (HasRun fuel file plan w) (
          and_then r (λ x.
            listen_while os (replicate k false ++ (true ∷ arrivals)) running x >>= close_down os))
  rest_of_main parent named fuel file plan k arrivals w r e (returns {a = x} {w = u} h) =
      ran (finish os parent named plan k arrivals x w u h)
    where
      ran : {run : Run os ℕ} → Returns (IsFinished x w) run → Returns (HasRun fuel file plan w) run
      ran (returns t) =
          returns (record { watcher = x; middle = u; started = e; holds = h.holds; finished = t })

  -- `main` returns 0 where the config file holds a document that passes the assertions, with
  -- texts shorter than `npos`, and asks for a build step and a program, all of whose commands
  -- have a name; the working directory stays and holds a tree, for each level of which there is
  -- fuel, and `inotify_init` gives a descriptor; `fork` never answers as in the child; the events
  -- of inotify have a name shorter than 2^64; the objects on the heap have a command; and SIGINT
  -- arrives in some round of the loop, the first time in the one behind `k` others. The watcher
  -- that it has set up refers to one process for each command of the document; all that it has
  -- started are rebuilds of these processes; and they are gone.
  pub main-HasRun :
      (bounded : IsBounded y) (parent : IsParent os)
      (named : (s : os.State) (fd : ℤ) → All IsNamed (os.read s fd).0.1) (fuel : ℕ) (file : Text)
      (plan : Plan) (here : Text) (f : Forest) (k : ℕ) (arrivals : List Bool) (w : World os)
      → IsSetUp fuel file plan here f
      → All Callable w.heap
      → Returns
          (HasRun fuel file plan w)
          (main y os fuel (some file) false (replicate k false ++ (true ∷ arrivals)) w)
  main-HasRun bounded parent named fuel file plan here f k arrivals w s callable =
      rw (main_lem fuel (some file) (replicate k false ++ (true ∷ arrivals)) w) (
        rest_of_main parent named fuel file plan k arrivals w _ refl
          (start_up-IsStarted bounded fuel file plan here f w s callable))
