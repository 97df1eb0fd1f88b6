-- ===== src/Config/Refine/Test.antt =====
-- The section `test` of the config file, in `parseConfig` of src/config.cpp.
use renzoku.Prelude.{
  ◌≡◌, ◌≢◌, refl, ◌∙◌, ap, Option, none, some, List, [], ◌∷◌, ◌++◌, length, All, All-append,
  append-nil,
}
use renzoku.Text.{Text}
use renzoku.Yaml.{Yaml}
use renzoku.World.{Os, World, M, done, ◌>>=◌, pure, and_then}
use renzoku.World.Does.{Callable, started_by}
use renzoku.World.Ends.{Ends, returned}
use renzoku.Procman.{add_process}
use renzoku.Procman.Setup.{add_process_lem}
use renzoku.Config.{CommandConfig, Config, new_process, read_test}
use renzoku.Config.Reads.{Reads-as}
use renzoku.Config.Commands.{IsBounded, Reads-parse_section}
use renzoku.Config.Plan.{Plan, asked, command_section, test_section}
use renzoku.Procman.Apart.{IsApart-process}
use renzoku.Config.Holds.{
  Heap, fresh, Holds, get_elem?-length, IsApart-snoc, Refers-append, ReferEach-append,
  ReferEach-snoc,
}
use renzoku.Config.Created.{with_process, new_process-none, new_process-some}
use renzoku.Config.Refine.{Follows, Follows-bind}

All-take :
    (cs : List (List Text)) (command : List Text)
    → All (λ c. c ≢ []) (cs ++ command ∷ [])
    → All (λ c. c ≢ []) cs × (command ≢ [])
All-take [] command h = (tt, h.0)
All-take (c ∷ cs) command h = let (before, last) = All-take cs command h.1 in ((h.0, before), last)

module _ (y : Yaml) (os : Os) where
  -- What `parseConfig` does behind `parseCommand` in a section of tests.
  abbrev behind_test : Config → CommandConfig → M os Config
  behind_test c s = do
    pm ← new_process y os s (λ p. add_process os p c.procman) c.procman
    pure (record c { test = s; procman = pm })

  test_made :
      (c : Config) (s : CommandConfig) (w : World os) (command : List Text)
      → asked s ≡ some command
      → behind_test c s w
        ≡ done
            (record c {
              test = s;
              procman = record (c.procman) {
                processes = c.procman.processes ++ (length w.heap ∷ []);
              };
            })
            (with_process command w)
  test_made c s w command f =
      ap (λ r. and_then r (λ pm. pure (record c { test = s; procman = pm })))
        (new_process-some y os s (λ p. add_process os p c.procman) c.procman w command f
          ∙ add_process_lem os (length w.heap) c.procman (with_process command w))

  -- The processes that a section adds to the plan.
  abbrev added : Option (List Text) → List (List Text)
  added asks = elim asks [ none ↦ [] | some command ↦ command ∷ [] ]

  test_held :
      (plan : Plan) (c : Config) (s : CommandConfig) (heap : Heap) (command : List Text)
      → Holds plan c heap
      → Holds
          (record plan { test = s; tests = plan.tests ++ (command ∷ []) })
          (record c {
            test = s;
            procman = record (c.procman) { processes = c.procman.processes ++ (length heap ∷ []) };
          })
          (heap ++ (some (fresh command) ∷ []))
  test_held plan c s heap command h =
      let more = some (fresh command) ∷ [] in
      record {
        watch = h.watch;
        compile = h.compile;
        test = refl;
        program = h.program;
        build = Refers-append heap more c.procman.build_step plan.build h.build;
        tests =
            ReferEach-snoc (heap ++ more) c.procman.processes plan.tests (length heap) command
              (ReferEach-append heap more c.procman.processes plan.tests h.tests)
              (get_elem?-length heap (some (fresh command)));
        run = Refers-append heap more c.procman.program plan.run h.run;
        callable = λ (builds, (tests, runs)).
            let (before, last) = All-take plan.tests command tests in
            All-append Callable heap more (h.callable (builds, (before, runs))) (last, tt);
        apart =
            IsApart-snoc heap (some (fresh command)) _
              (IsApart-process (length heap) c.procman h.apart);
      }

  test-Follows :
      (plan : Plan) (c : Config) (s : CommandConfig) (w u : World os) (asks : Option (List Text))
      → Holds plan c u.heap
      → started_by u.trace ≡ started_by w.trace
      → asked s ≡ asks
      → Ends
          (Follows (some (record plan { test = s; tests = plan.tests ++ added asks })) w)
          (some (record plan { test = s; tests = plan.tests ++ added asks }) ≡ none)
          (behind_test c s u)
  test-Follows plan c s w u none h t a =
      rw
        (
          new_process-none y os s (λ p. add_process os p c.procman) c.procman u a,
          append-nil plan.tests,
        )
        (returned (record {
          plan = record plan { test = s };
          planned = refl;
          holds = record {
            watch = h.watch;
            compile = h.compile;
            test = refl;
            program = h.program;
            build = h.build;
            tests = h.tests;
            run = h.run;
            callable = h.callable;
            apart = h.apart;
          };
          starts = t;
        }))
  test-Follows plan c s w u (some command) h t a = rw (test_made c s u command a) (
      returned (record {
        plan = record plan { test = s; tests = plan.tests ++ (command ∷ []) };
        planned = refl;
        holds = test_held plan c s u.heap command h;
        starts = t;
      }))

  pub read_test-Follows :
      (bounded : IsBounded y) (node : y.Node) (plan : Plan) (c : Config) (w : World os)
      → Holds plan c w.heap
      → Ends
          (Follows (test_section y node plan) w)
          (test_section y node plan ≡ none)
          (read_test y os node c w)
  unfolding read_test test_section
  read_test-Follows bounded node plan c w h =
      Follows-bind (command_section y node plan.test) _ w _ _
        ((Reads-as (ap (command_section y node) h.test)
            (Reads-parse_section y os bounded node c.test)).apply
          w)
        λ s u same.
          let h' : Holds plan c u.heap = rw same.heap h in
          test-Follows plan c s w u (asked s) h' same.starts refl
