-- ===== src/Config/Refine/Document.antt =====
-- The whole of `parseConfig` of src/config.cpp, and the constructor of Config over a stream.
use renzoku.Prelude.{
  ◌≡◌, refl, ◌∙◌, ap, Bool, true, false, Option, none, some, List, [], ◌∷◌, All, if◌then◌else◌,
}
use renzoku.Text.{Text, bytes, text_eq}
use renzoku.Yaml.{Yaml}
use renzoku.World.{Os, World, M, Run, ◌>>◌, and_then}
use renzoku.World.Does.{Callable, started_by}
use renzoku.World.Ends.{Ends, returned, raised}
use renzoku.Util.Command.{◌>>=◌ as ◌>>?◌}
use renzoku.Util.Lowercase.{lowercase_r}
use renzoku.Procman.{empty}
use renzoku.Config.{
  Config, empty_config, assert, read_section, read_watch, unknown_section, config_entry,
  config_entries, read_document, parse_config, config_from_stream, find_config, config_from_file,
}
use renzoku.Config.Reads.{Reads-as}
use renzoku.Config.Watch.{is_map}
use renzoku.Config.Watch.Reads.{Reads-convert, convert-some, Reads-parse_watcher}
use renzoku.Config.Commands.{IsBounded}
use renzoku.Config.Plan.{Plan, no_plan, watch_section, section, plan_of}
use renzoku.Config.Holds.{Holds}
use renzoku.Config.Refine.{Follows, Follows-bind}
use renzoku.Config.Refine.Program.{read_program-Follows}
use renzoku.Config.Refine.Compile.{read_compile-Follows}
use renzoku.Config.Refine.Test.{read_test-Follows}

Follows-if :
    {os : Os} {o p : Option Plan} {w : World os} (m k : M os Config) (b : Bool) (u : World os)
    → Ends (Follows o w) (o ≡ none) (m u)
    → Ends (Follows p w) (p ≡ none) (k u)
    → Ends (Follows (if b then o else p) w) ((if b then o else p) ≡ none) ((if b then m else k) u)
Follows-if m k true u t f = t
Follows-if m k false u t f = f

-- One step behind another, where nothing was started in between.
pub Follows-after :
    {os : Os} {o : Option Plan} {w u : World os} {r : Run os Config}
    → started_by u.trace ≡ started_by w.trace
    → Ends (Follows o u) (o ≡ none) r
    → Ends (Follows o w) (o ≡ none) r
Follows-after t (returned f) =
    returned (record { plan = f.plan; planned = f.planned; holds = f.holds; starts = f.starts ∙ t })
Follows-after t (raised e) = raised e

Follows-then :
    {os : Os} {o : Option Plan} (f : Plan → Option Plan) (w : World os) (r : Run os Config)
    (k : Config → M os Config)
    → Ends (Follows o w) (o ≡ none) r
    → ((next : Plan) (d : Config) (u : World os)
        → Holds next d u.heap
        → Ends (Follows (f next) u) (f next ≡ none) (k d u))
    → Ends (Follows (o >>? f) w) ((o >>? f) ≡ none) (and_then r k)
Follows-then f w r k (returned {a = d} {w = u} t) g =
    rw t.planned (Follows-after t.starts (g t.plan d u t.holds))
Follows-then f w r k (raised e) g = raised (rw e refl)

module _ (y : Yaml) (os : Os) where
  assert-true :
      {A : Type 0} (b : Bool) (m : M os A) (w : World os) → b ≡ true → (assert y os b >> m) w ≡ m w
  unfolding assert
  assert-true true m w e = refl
  assert-true false m w e = absurd (cc)

  read_watch-Follows :
      (node : y.Node) (plan : Plan) (c : Config) (w : World os)
      → Holds plan c w.heap
      → Ends
          (Follows (watch_section y node plan.watch >>? λ wc. some (record plan { watch = wc })) w)
          ((watch_section y node plan.watch >>? λ wc. some (record plan { watch = wc })) ≡ none)
          (read_watch y os node c w)
  unfolding read_watch
  read_watch-Follows node plan c w h =
      Follows-bind (watch_section y node plan.watch) _ w _ _
        ((Reads-as (ap (watch_section y node) h.watch)
            (Reads-parse_watcher y os node c.watch)).apply
          w)
        λ wc u same.
          let h' : Holds plan c u.heap = rw same.heap h in
          returned (record {
            plan = record plan { watch = wc };
            planned = refl;
            holds = record {
              watch = refl;
              compile = h'.compile;
              test = h'.test;
              program = h'.program;
              build = h'.build;
              tests = h'.tests;
              run = h'.run;
              callable = h'.callable;
              apart = h'.apart;
            };
            starts = same.starts;
          })

  config_entry-Follows :
      (bounded : IsBounded y) (k v : y.Node) (plan : Plan) (c : Config) (w : World os)
      → is_map y v ≡ true
      → Holds plan c w.heap
      → Ends
          (Follows (section y (k, v) plan) w)
          (section y (k, v) plan ≡ none)
          (config_entry y os k v c w)
  unfolding config_entry section read_section unknown_section
  config_entry-Follows bounded k v plan c w m h = rw (assert-true (is_map y v) _ w m) (
      Follows-bind (y.as_string k) _ w _ _ ((Reads-convert os (y.as_string k)).apply w)
        λ raw u same.
          let h' : Holds plan c u.heap = rw same.heap h in
          Follows-after same.starts (
            Follows-if _ _ (text_eq (lowercase_r raw) (bytes "watch")) u
              (read_watch-Follows v plan c u h')
              (Follows-if _ _ (text_eq (lowercase_r raw) (bytes "program")) u
                (read_program-Follows y os bounded v plan c u h')
                (Follows-if _ _ (text_eq (lowercase_r raw) (bytes "test")) u
                  (read_test-Follows y os bounded v plan c u h')
                  (Follows-if _ _ (text_eq (lowercase_r raw) (bytes "compile")) u
                    (read_compile-Follows y os bounded v plan c u h') (raised refl))))))

  -- The sections are maps, as an assertion demands.
  abbrev pub AreMaps : List (y.Node × y.Node) → Type 0
  AreMaps = All (λ (entry : y.Node × y.Node). is_map y entry.1 ≡ true)

  config_entries-Follows :
      (bounded : IsBounded y) (entries : List (y.Node × y.Node)) (plan : Plan) (c : Config)
      (w : World os)
      → AreMaps entries
      → Holds plan c w.heap
      → Ends
          (Follows (plan_of y entries plan) w)
          (plan_of y entries plan ≡ none)
          (config_entries y os entries c w)
  unfolding config_entries plan_of
  config_entries-Follows bounded [] plan c w m h =
      returned (record { plan = plan; planned = refl; holds = h; starts = refl })
  config_entries-Follows bounded ((k, v) ∷ rest) plan c w m h =
      Follows-then (plan_of y rest) w _ (config_entries y os rest)
        (config_entry-Follows bounded k v plan c w m.0 h)
        λ next d u h'. config_entries-Follows bounded rest next d u m.1 h'

  -- What `parseConfig` asserts of a document.
  pub record IsDocument (node : y.Node) : Type 0 where
    pub defined : y.is_defined node ≡ true
    pub map : is_map y node ≡ true
    pub watch : y.is_defined (y.lookup node (bytes "watch")) ≡ true
    pub program : y.is_defined (y.lookup node (bytes "program")) ≡ true
    pub sections : AreMaps (y.entries node)

  read_document-Follows :
      (bounded : IsBounded y) (node : y.Node) (plan : Plan) (c : Config) (w : World os)
      → IsDocument node
      → Holds plan c w.heap
      → Ends
          (Follows (plan_of y (y.entries node) plan) w)
          (plan_of y (y.entries node) plan ≡ none)
          (read_document y os node c w)
  unfolding read_document
  read_document-Follows bounded node plan c w d h =
      rw
        (
          assert-true (y.is_defined node) _ w d.defined,
          assert-true (is_map y node) _ w d.map,
          assert-true (is_map y node) _ w d.map,
          assert-true (y.is_defined (y.lookup node (bytes "watch"))) _ w d.watch,
          assert-true (y.is_defined (y.lookup node (bytes "program"))) _ w d.program,
        )
        (config_entries-Follows bounded (y.entries node) plan c w d.sections h)

  -- The constructor of Config implements `plan_of`. On a document that passes the assertions,
  -- whose texts are shorter than `npos`, and on a heap of objects that have a command, it returns
  -- exactly where the document has a plan: the sections of the config are those of the plan, each
  -- pointer of the manager is to a process with the command that the plan has in its place, and
  -- nothing was started. Where the document has no plan it throws, and it ends in no other way.
  pub config_from_file-Follows :
      (bounded : IsBounded y) (file : Text) (node : y.Node) (w : World os)
      → y.load file ≡ some node
      → IsDocument node
      → All Callable w.heap
      → Ends
          (Follows (plan_of y (y.entries node) no_plan) w)
          (plan_of y (y.entries node) no_plan ≡ none)
          (config_from_file y os empty (some file) w)
  unfolding config_from_file find_config config_from_stream parse_config
  config_from_file-Follows bounded file node w loaded d callable =
      rw (loaded, convert-some os node w)
        (read_document-Follows bounded node no_plan (empty_config empty) w d (record {
          watch = refl;
          compile = refl;
          test = refl;
          program = refl;
          build = tt;
          tests = tt;
          run = tt;
          callable = λ _. callable;
          apart = record {
            processes_below = tt;
            build_below = tt;
            program_below = tt;
            processes = tt;
            build = tt;
            program = tt;
            both = tt;
          };
        }))
