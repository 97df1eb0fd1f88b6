-- ===== src/Config/Memory/Assignments.antt =====
-- The commands that the sections of a config file assign one behind another, against those of
-- `plan_of`.
use renzoku.Prelude.{
  ◌≡◌, refl, ◌∙◌, ap, Bool, true, false, ◌&&◌, leb, Option, none, some, List, [], ◌∷◌, ◌++◌, map,
  if◌then◌else◌,
}
use renzoku.Text.{Text, bytes, text_eq, c_str}
use renzoku.Yaml.{Yaml}
use renzoku.Util.Command.{◌>>=◌}
use renzoku.Util.Command.Words.{split_words}
use renzoku.Util.Lowercase.{lowercase, lowercase_r}
use renzoku.Config.{CommandConfig}
use renzoku.Config.Watch.{is_map, is_scalar}
use renzoku.Config.Plan.{
  Plan, asked, once, setting, settings, command_section, watch_section, program_section,
  compile_section, test_section, section, plan_of,
}
use renzoku.Config.Memory.{put, Member, compile, test, program, same}
use renzoku.Config.Memory.Gives.{Gives, Gives-some, Gives-none, Gives-bind, Gives-if}
use renzoku.Config.Memory.Last.{last, every, newest, newest-append, last-map, last-append}

-- The commands of the sections.
abbrev pub commands_of : Plan → Member → Option (List Text)
commands_of plan compile = plan.compile.command
commands_of plan test = plan.test.command
commands_of plan program = plan.program.command

module _ (y : Yaml) where
  -- What a key of a section assigns, if it is a `command`.
  unfoldable pub assigned : y.Node × y.Node → List (List Text)
  assigned (k, v) = elim (y.as_string k) [
    | none ↦ []
    | some raw ↦
        if text_eq (lowercase raw) (bytes "command") && is_scalar y v
        then (elim (y.as_string v) [ none ↦ [] | some value ↦ map c_str (split_words value) ∷ [] ])
        else []
  ]

  unfoldable pub assigned_all : List (y.Node × y.Node) → List (List Text)
  assigned_all [] = []
  assigned_all (entry ∷ rest) = assigned entry ++ assigned_all rest

  unfoldable pub assigned_in : y.Node → List (List Text)
  assigned_in node =
      if leb 1 (y.size node) && is_map y node then assigned_all (y.entries node) else []

  setting-assigned :
      (entry : y.Node × y.Node) (c : CommandConfig)
      → Gives (λ d. d.command ≡ newest (assigned entry) c.command) (setting y entry c)
  unfolding setting assigned
  setting-assigned (k, v) c = Gives-bind (y.as_string k) λ raw e.
      Gives-if (text_eq (lowercase raw) (bytes "command"))
        (λ named.
          Gives-if (is_scalar y v)
            (λ scalar.
              Gives-bind (y.as_string v)
                λ value f. Gives-some (rw (assigned, e, named, scalar, f) refl))
            (λ scalar. Gives-some (rw (assigned, e, named, scalar) refl)))
        λ named.
          Gives-if (text_eq (lowercase raw) (bytes "enabled"))
            (λ _. Gives-bind (y.as_bool v) λ on f. Gives-some (rw (assigned, e, named) refl))
            (λ _. Gives-some (rw (assigned, e, named) refl))

  settings-assigned :
      (entries : List (y.Node × y.Node)) (c : CommandConfig)
      → Gives (λ d. d.command ≡ newest (assigned_all entries) c.command) (settings y entries c)
  unfolding settings assigned_all
  settings-assigned [] c = Gives-some refl
  settings-assigned (entry ∷ rest) c = Gives-bind (setting y entry c) λ d e. record {
    given = λ a f.
        (settings-assigned rest d).given a f
        ∙ ap (newest (assigned_all rest)) ((setting-assigned entry c).given d e)
        ∙ newest-append (assigned entry) (assigned_all rest) c.command;
  }

  section-assigned :
      (node : y.Node) (c : CommandConfig)
      → Gives (λ d. d.command ≡ newest (assigned_in node) c.command) (command_section y node c)
  unfolding command_section assigned_in
  section-assigned node c = split (leb 1 (y.size node) && is_map y node) refl
    where
      split :
          (b : Bool)
          → leb 1 (y.size node) && is_map y node ≡ b
          → Gives (λ d. d.command ≡ newest (assigned_in node) c.command) (command_section y node c)
      split true e = rw (command_section, assigned_in, e) (settings-assigned (y.entries node) c)
      split false e = rw (command_section, assigned_in, e) (Gives-some refl)

  -- The member of a section's name.
  unfoldable pub member : Text → Option Member
  member raw =
      if text_eq (lowercase_r raw) (bytes "watch")
      then none
      else if text_eq (lowercase_r raw) (bytes "program")
      then some program
      else if text_eq (lowercase_r raw) (bytes "test")
      then some test
      else if text_eq (lowercase_r raw) (bytes "compile")
      then some compile
      else none

  -- What a section assigns.
  unfoldable pub section_commands : y.Node × y.Node → List (Member × List Text)
  section_commands (k, v) = elim (y.as_string k >>= member) [
    | none ↦ []
    | some s ↦ map (λ command. (s, command)) (assigned_in v)
  ]

  -- What the sections assign, one behind another.
  unfoldable pub assignments : List (y.Node × y.Node) → List (Member × List Text)
  assignments [] = []
  assignments (entry ∷ rest) = section_commands entry ++ assignments rest

  abbrev pub Assigns : List (Member × List Text) → Plan → Plan → Type 0
  Assigns a plan next = (s : Member) → commands_of next s ≡ last a (commands_of plan s) s

  one-Assigns :
      (r : Member) (a : List (List Text)) (t u : Member → Option (List Text))
      → ((s : Member) → u s ≡ put (same r s) (t s) (newest a (t s)))
      → (s : Member) → u s ≡ last (map (λ command. (r, command)) a) (t s) s
  one-Assigns r a t u h s = h s ∙ last-map r a (t s) s

  program-Assigns :
      (v : y.Node) (plan : Plan)
      → Gives
          (Assigns (map (λ command. (program, command)) (assigned_in v)) plan)
          (program_section y v plan)
  unfolding program_section
  program-Assigns v plan = Gives-bind (command_section y v plan.program) λ c f.
      Gives-bind (once plan.run (asked c)) λ next g. Gives-some (
        one-Assigns program (assigned_in v) (commands_of plan) _
          (every _ refl refl ((section-assigned v plan.program).given c f)))

  compile-Assigns :
      (v : y.Node) (plan : Plan)
      → Gives
          (Assigns (map (λ command. (compile, command)) (assigned_in v)) plan)
          (compile_section y v plan)
  unfolding compile_section
  compile-Assigns v plan = Gives-bind (command_section y v plan.compile) λ c f.
      Gives-bind (once plan.build (asked c)) λ next g. Gives-some (
        one-Assigns compile (assigned_in v) (commands_of plan) _
          (every _ ((section-assigned v plan.compile).given c f) refl refl))

  test-Assigns :
      (v : y.Node) (plan : Plan)
      → Gives
          (Assigns (map (λ command. (test, command)) (assigned_in v)) plan)
          (test_section y v plan)
  unfolding test_section
  test-Assigns v plan = Gives-bind (command_section y v plan.test) λ c f. Gives-some (
      one-Assigns test (assigned_in v) (commands_of plan) _
        (every _ refl ((section-assigned v plan.test).given c f) refl))

  section-Assigns :
      (entry : y.Node × y.Node) (plan : Plan)
      → Gives (Assigns (section_commands entry) plan) (section y entry plan)
  unfolding section section_commands member
  section-Assigns (k, v) plan = Gives-bind (y.as_string k) λ raw e.
      Gives-if (text_eq (lowercase_r raw) (bytes "watch"))
        (λ watch.
          Gives-bind (watch_section y v plan.watch)
            λ wc f. Gives-some (rw (section_commands, e, member, watch) (λ s. refl)))
        λ watch.
          Gives-if (text_eq (lowercase_r raw) (bytes "program"))
            (λ named. rw (section_commands, e, member, watch, named) (program-Assigns v plan))
            λ other.
              Gives-if (text_eq (lowercase_r raw) (bytes "test"))
                (λ named.
                  rw (section_commands, e, member, watch, other, named) (test-Assigns v plan))
                λ another.
                  Gives-if (text_eq (lowercase_r raw) (bytes "compile"))
                    (λ named.
                      rw (section_commands, e, member, watch, other, another, named)
                        (compile-Assigns v plan))
                    λ unknown. Gives-none

  pub plan_of-Assigns :
      (entries : List (y.Node × y.Node)) (plan : Plan)
      → Gives (Assigns (assignments entries) plan) (plan_of y entries plan)
  unfolding plan_of assignments
  plan_of-Assigns [] plan = Gives-some λ s. refl
  plan_of-Assigns (entry ∷ rest) plan = Gives-bind (section y entry plan) λ next e. record {
    given = λ final f s.
        (plan_of-Assigns rest next).given final f s
        ∙ ap (λ t. last (assignments rest) t s) ((section-Assigns entry plan).given next e s)
        ∙ last-append (section_commands entry) (assignments rest) (commands_of plan s) s;
  }
