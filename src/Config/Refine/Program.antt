-- ===== src/Config/Refine/Program.antt =====
-- The section `program` of the config file, in `parseConfig` of src/config.cpp.
use renzoku.Prelude.{
  ◌≡◌, refl, ◌∙◌, ap, Option, none, some, List, [], ◌∷◌, ◌++◌, length, All-append,
}
use renzoku.Text.{Text, bytes}
use renzoku.Yaml.{Yaml}
use renzoku.World.{Os, World, Ptr, M, done, ◌>>=◌, ◌>>◌, pure, and_then}
use renzoku.World.Does.{Callable, started_by}
use renzoku.World.Ends.{Ends, returned}
use renzoku.Util.Command.{◌>>=◌ as ◌>>?◌}
use renzoku.Procman.{set_program}
use renzoku.Procman.Setup.{set_program_unset}
use renzoku.Config.{CommandConfig, Config, new_process, guard_unset, read_program}
use renzoku.Config.Reads.{Reads-as}
use renzoku.Config.Commands.{IsBounded, Reads-parse_section}
use renzoku.Config.Plan.{Plan, asked, once, command_section, program_section}
use renzoku.Procman.Apart.{IsApart-program}
use renzoku.Config.Holds.{
  Heap, fresh, Refers, Holds, get_elem?-length, IsApart-snoc, Refers-append, ReferEach-append,
}
use renzoku.Config.Created.{with_process, new_process-none, new_process-some}
use renzoku.Config.Refine.{Follows, Follows-bind, guard_unset-none, guard_unset-some}

module _ (y : Yaml) (os : Os) where
  -- What `parseConfig` does behind `parseCommand` in the section of the program.
  abbrev behind_program : Config → CommandConfig → M os Config
  behind_program c s = do
    guard_unset y os c.procman.program (bytes "Program already set!")
    pm ← new_process y os s (λ p. set_program os p c.procman) c.procman
    pure (record c { program = s; procman = pm })

  program_kept :
      (c : Config) (s : CommandConfig) (w : World os)
      → c.procman.program ≡ none
      → asked s ≡ none
      → behind_program c s w ≡ done (record c { program = s }) w
  program_kept c s w e f =
      guard_unset-none y os c.procman.program _ _ w e
      ∙ ap (λ r. and_then r (λ pm. pure (record c { program = s; procman = pm })))
          (new_process-none y os s (λ p. set_program os p c.procman) c.procman w f)

  program_made :
      (c : Config) (s : CommandConfig) (w : World os) (command : List Text)
      → c.procman.program ≡ none
      → asked s ≡ some command
      → behind_program c s w
        ≡ done
            (record c {
              program = s;
              procman = record (c.procman) { program = some (length w.heap) };
            })
            (with_process command w)
  program_made c s w command e f =
      guard_unset-none y os c.procman.program _ _ w e
      ∙ ap (λ r. and_then r (λ pm. pure (record c { program = s; procman = pm })))
          (new_process-some y os s (λ p. set_program os p c.procman) c.procman w command f
            ∙ set_program_unset os (length w.heap) c.procman (with_process command w) e)

  -- The program of the plan on a heap with its process at the end.
  program_held :
      (plan : Plan) (c : Config) (s : CommandConfig) (heap : Heap) (command : List Text)
      → Holds plan c heap
      → plan.run ≡ none
      → Holds
          (record plan { program = s; run = some command })
          (record c { program = s; procman = record (c.procman) { program = some (length heap) } })
          (heap ++ (some (fresh command) ∷ []))
  program_held plan c s heap command h e =
      let more = some (fresh command) ∷ [] in
      record {
        watch = h.watch;
        compile = h.compile;
        test = h.test;
        program = refl;
        build = Refers-append heap more c.procman.build_step plan.build h.build;
        tests = ReferEach-append heap more c.procman.processes plan.tests h.tests;
        run = get_elem?-length heap (some (fresh command));
        callable = λ (builds, (tests, named)).
            All-append Callable heap more (h.callable (builds, (tests, rw e tt))) (named, tt);
        apart =
            IsApart-snoc heap (some (fresh command)) _
              (IsApart-program (length heap) c.procman h.apart);
      }

  program-Follows :
      (plan : Plan) (c : Config) (s : CommandConfig) (w u : World os) (o : Option Ptr)
      (q : Option (List Text)) (asks : Option (List Text))
      → Holds plan c u.heap
      → started_by u.trace ≡ started_by w.trace
      → c.procman.program ≡ o
      → plan.run ≡ q
      → Refers u.heap o q
      → asked s ≡ asks
      → Ends
          (Follows (once q asks >>? λ next. some (record plan { program = s; run = next })) w)
          ((once q asks >>? λ next. some (record plan { program = s; run = next })) ≡ none)
          (behind_program c s u)
  program-Follows plan c s w u none none none h t e f r a = rw (program_kept c s u e a) (
      returned (record {
        plan = record plan { program = s; run = none };
        planned = refl;
        holds = record {
          watch = h.watch;
          compile = h.compile;
          test = h.test;
          program = refl;
          build = h.build;
          tests = h.tests;
          run = rw e tt;
          callable = λ (builds, (tests, none_named)). h.callable (builds, (tests, rw f tt));
          apart = h.apart;
        };
        starts = t;
      }))
  program-Follows plan c s w u none none (some command) h t e f r a =
      rw (program_made c s u command e a) (
        returned (record {
          plan = record plan { program = s; run = some command };
          planned = refl;
          holds = program_held plan c s u.heap command h f;
          starts = t;
        }))
  program-Follows plan c s w u none (some first) asks h t e f r a = absurd r
  program-Follows plan c s w u (some p) none asks h t e f r a = absurd r
  program-Follows plan c s w u (some p) (some first) asks h t e f r a =
      guard_unset-some y os c.procman.program p _ _ u e refl

  pub read_program-Follows :
      (bounded : IsBounded y) (node : y.Node) (plan : Plan) (c : Config) (w : World os)
      → Holds plan c w.heap
      → Ends
          (Follows (program_section y node plan) w)
          (program_section y node plan ≡ none)
          (read_program y os node c w)
  unfolding read_program program_section
  read_program-Follows bounded node plan c w h =
      Follows-bind (command_section y node plan.program) _ w _ _
        ((Reads-as (ap (command_section y node) h.program)
            (Reads-parse_section y os bounded node c.program)).apply
          w)
        λ s u same.
          let h' : Holds plan c u.heap = rw same.heap h in
          program-Follows plan c s w u c.procman.program plan.run (asked s) h' same.starts refl refl
            h'.run refl
