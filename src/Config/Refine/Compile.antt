-- ===== src/Config/Refine/Compile.antt =====
-- The section `compile` of the config file, in `parseConfig` of src/config.cpp.
use renzoku.Prelude.{
  ◌≡◌, refl, ◌∙◌, ap, Option, none, some, List, [], ◌∷◌, ◌++◌, length, All-append,
}
use renzoku.Text.{Text, bytes}
use renzoku.Yaml.{Yaml}
use renzoku.World.{Os, World, Ptr, M, done, ◌>>=◌, ◌>>◌, pure, and_then}
use renzoku.World.Does.{Callable, started_by}
use renzoku.World.Ends.{Ends, returned}
use renzoku.Util.Command.{◌>>=◌ as ◌>>?◌}
use renzoku.Procman.{set_builder}
use renzoku.Procman.Setup.{set_builder_unset}
use renzoku.Config.{CommandConfig, Config, new_process, guard_unset, read_compile}
use renzoku.Config.Reads.{Reads-as}
use renzoku.Config.Commands.{IsBounded, Reads-parse_section}
use renzoku.Config.Plan.{Plan, asked, once, command_section, compile_section}
use renzoku.Procman.Apart.{IsApart-build}
use renzoku.Config.Holds.{
  Heap, fresh, Refers, Holds, get_elem?-length, IsApart-snoc, Refers-append, ReferEach-append,
}
use renzoku.Config.Created.{with_process, new_process-none, new_process-some}
use renzoku.Config.Refine.{Follows, Follows-bind, guard_unset-none, guard_unset-some}

module _ (y : Yaml) (os : Os) where
  -- What `parseConfig` does behind `parseCommand` in the section of the build step.
  abbrev behind_compile : Config → CommandConfig → M os Config
  behind_compile c s = do
    guard_unset y os c.procman.build_step (bytes "BuildStage already set!")
    pm ← new_process y os s (λ p. set_builder os p c.procman) c.procman
    pure (record c { compile = s; procman = pm })

  compile_kept :
      (c : Config) (s : CommandConfig) (w : World os)
      → c.procman.build_step ≡ none
      → asked s ≡ none
      → behind_compile c s w ≡ done (record c { compile = s }) w
  compile_kept c s w e f =
      guard_unset-none y os c.procman.build_step _ _ w e
      ∙ ap (λ r. and_then r (λ pm. pure (record c { compile = s; procman = pm })))
          (new_process-none y os s (λ p. set_builder os p c.procman) c.procman w f)

  compile_made :
      (c : Config) (s : CommandConfig) (w : World os) (command : List Text)
      → c.procman.build_step ≡ none
      → asked s ≡ some command
      → behind_compile c s w
        ≡ done
            (record c {
              compile = s;
              procman = record (c.procman) { build_step = some (length w.heap) };
            })
            (with_process command w)
  compile_made c s w command e f =
      guard_unset-none y os c.procman.build_step _ _ w e
      ∙ ap (λ r. and_then r (λ pm. pure (record c { compile = s; procman = pm })))
          (new_process-some y os s (λ p. set_builder os p c.procman) c.procman w command f
            ∙ set_builder_unset os (length w.heap) c.procman (with_process command w) e)

  -- The build step of the plan on a heap with its process at the end.
  compile_held :
      (plan : Plan) (c : Config) (s : CommandConfig) (heap : Heap) (command : List Text)
      → Holds plan c heap
      → plan.build ≡ none
      → Holds
          (record plan { compile = s; build = some command })
          (record c {
            compile = s;
            procman = record (c.procman) { build_step = some (length heap) };
          })
          (heap ++ (some (fresh command) ∷ []))
  compile_held plan c s heap command h e =
      let more = some (fresh command) ∷ [] in
      record {
        watch = h.watch;
        compile = refl;
        test = h.test;
        program = h.program;
        build = get_elem?-length heap (some (fresh command));
        tests = ReferEach-append heap more c.procman.processes plan.tests h.tests;
        run = Refers-append heap more c.procman.program plan.run h.run;
        callable =
            λ (named, rest). All-append Callable heap more (h.callable (rw e tt, rest)) (named, tt);
        apart =
            IsApart-snoc heap (some (fresh command)) _
              (IsApart-build (length heap) c.procman h.apart);
      }

  compile-Follows :
      (plan : Plan) (c : Config) (s : CommandConfig) (w u : World os) (o : Option Ptr)
      (q : Option (List Text)) (asks : Option (List Text))
      → Holds plan c u.heap
      → started_by u.trace ≡ started_by w.trace
      → c.procman.build_step ≡ o
      → plan.build ≡ q
      → Refers u.heap o q
      → asked s ≡ asks
      → Ends
          (Follows (once q asks >>? λ next. some (record plan { compile = s; build = next })) w)
          ((once q asks >>? λ next. some (record plan { compile = s; build = next })) ≡ none)
          (behind_compile c s u)
  compile-Follows plan c s w u none none none h t e f r a = rw (compile_kept c s u e a) (
      returned (record {
        plan = record plan { compile = s; build = none };
        planned = refl;
        holds = record {
          watch = h.watch;
          compile = refl;
          test = h.test;
          program = h.program;
          build = rw e tt;
          tests = h.tests;
          run = h.run;
          callable = λ (none_named, rest). h.callable (rw f tt, rest);
          apart = h.apart;
        };
        starts = t;
      }))
  compile-Follows plan c s w u none none (some command) h t e f r a =
      rw (compile_made c s u command e a) (
        returned (record {
          plan = record plan { compile = s; build = some command };
          planned = refl;
          holds = compile_held plan c s u.heap command h f;
          starts = t;
        }))
  compile-Follows plan c s w u none (some first) asks h t e f r a = absurd r
  compile-Follows plan c s w u (some p) none asks h t e f r a = absurd r
  compile-Follows plan c s w u (some p) (some first) asks h t e f r a =
      guard_unset-some y os c.procman.build_step p _ _ u e refl

  pub read_compile-Follows :
      (bounded : IsBounded y) (node : y.Node) (plan : Plan) (c : Config) (w : World os)
      → Holds plan c w.heap
      → Ends
          (Follows (compile_section y node plan) w)
          (compile_section y node plan ≡ none)
          (read_compile y os node c w)
  unfolding read_compile compile_section
  read_compile-Follows bounded node plan c w h =
      Follows-bind (command_section y node plan.compile) _ w _ _
        ((Reads-as (ap (command_section y node) h.compile)
            (Reads-parse_section y os bounded node c.compile)).apply
          w)
        λ s u same.
          let h' : Holds plan c u.heap = rw same.heap h in
          compile-Follows plan c s w u c.procman.build_step plan.build (asked s) h' same.starts refl
            refl h'.build refl
