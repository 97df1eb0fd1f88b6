-- ===== src/Config/Order.antt =====
-- The order of the sections of a config file, for `plan_of`.
pub mod Parts
use renzoku.Prelude.{
  ◌≡◌, ◌≢◌, refl, sym, ap, ◌∙◌, Bool, Bool-cases, true, false, inl, inr, Option, none, some, List,
  [], ◌∷◌, ◌++◌, if◌then◌else◌,
}
use renzoku.Text.{Text, bytes, text_eq}
use renzoku.Config.Order.Parts.{Part, AreApart, on_part, on_part-swap}
use renzoku.Yaml.{Yaml}
use renzoku.Util.Command.{◌>>=◌}
use renzoku.Util.Lowercase.{lowercase_r}
use renzoku.Config.{CommandConfig}
use renzoku.Config.Watch.{WatchConfig}
use renzoku.Config.Plan.{
  Plan, asked, once, command_section, watch_section, program_section, compile_section, test_section,
  section, plan_of,
}

-- What a key stands for.
pub data SectionName : Type 0 where
  watch_name program_name test_name compile_name no_name : SectionName

unfoldable pub section_name : Text → SectionName
section_name key =
    if text_eq key (bytes "watch")
    then watch_name
    else if text_eq key (bytes "program")
    then program_name
    else if text_eq key (bytes "test")
    then test_name
    else if text_eq key (bytes "compile")
    then compile_name
    else no_name

abbrev watch_part : Part WatchConfig
watch_part = record { get = λ p. p.watch; put = λ s p. record p { watch = s } }

abbrev program_part : Part (CommandConfig × Option (List Text))
program_part = record {
  get = λ p. (p.program, p.run);
  put = λ s p. record p { program = s.0; run = s.1 };
}

abbrev compile_part : Part (CommandConfig × Option (List Text))
compile_part = record {
  get = λ p. (p.compile, p.build);
  put = λ s p. record p { compile = s.0; build = s.1 };
}

abbrev test_part : Part (CommandConfig × List (List Text))
test_part = record {
  get = λ p. (p.test, p.tests);
  put = λ s p. record p { test = s.0; tests = s.1 };
}

module _ (y : Yaml) where
  abbrev only_step :
      y.Node → CommandConfig × Option (List Text) → Option (CommandConfig × Option (List Text))
  only_step v s = command_section y v s.0 >>= λ c. once s.1 (asked c) >>= λ next. some (c, next)

  abbrev any_step :
      y.Node → CommandConfig × List (List Text) → Option (CommandConfig × List (List Text))
  any_step v s = command_section y v s.0 >>= λ c.
      some (c, s.1 ++ (elim (asked c) [ none ↦ [] | some command ↦ command ∷ [] ]))

  abbrev named : SectionName → y.Node → Plan → Option Plan
  named watch_name v = on_part watch_part (watch_section y v)
  named program_name v = on_part program_part (only_step v)
  named test_name v = on_part test_part (any_step v)
  named compile_name v = on_part compile_part (only_step v)
  named no_name v = λ plan. none

  >>=-assoc :
      {A B C : Type 0} (o : Option A) (k : A → Option B) (l : B → Option C)
      → ((o >>= k) >>= l) ≡ (o >>= λ a. k a >>= l)
  >>=-assoc none k l = refl
  >>=-assoc (some a) k l = refl

  program_section-named :
      (v : y.Node) (plan : Plan) → program_section y v plan ≡ named program_name v plan
  unfolding program_section
  program_section-named v plan = step (command_section y v plan.program) refl
    where
      step :
          (o : Option CommandConfig)
          → command_section y v plan.program ≡ o
          → program_section y v plan ≡ named program_name v plan
      step none e = rw (program_section, e) refl
      step (some c) e = rw (program_section, e) (sym (>>=-assoc (once plan.run (asked c)) _ _))

  compile_section-named :
      (v : y.Node) (plan : Plan) → compile_section y v plan ≡ named compile_name v plan
  unfolding compile_section
  compile_section-named v plan = step (command_section y v plan.compile) refl
    where
      step :
          (o : Option CommandConfig)
          → command_section y v plan.compile ≡ o
          → compile_section y v plan ≡ named compile_name v plan
      step none e = rw (compile_section, e) refl
      step (some c) e = rw (compile_section, e) (sym (>>=-assoc (once plan.build (asked c)) _ _))

  test_section-named : (v : y.Node) (plan : Plan) → test_section y v plan ≡ named test_name v plan
  unfolding test_section
  test_section-named v plan = sym (>>=-assoc (command_section y v plan.test) _ _)

  abbrev keyed : Option Text → y.Node → Plan → Option Plan
  keyed o v plan = o >>= λ raw. named (section_name (lowercase_r raw)) v plan

  section-named :
      (k v : y.Node) (plan : Plan) → section y (k, v) plan ≡ keyed (y.as_string k) v plan
  unfolding section section_name
  section-named k v plan = step (y.as_string k) refl
    where
      chosen :
          (a b c d : Bool)
          → (if a
              then on_part watch_part (watch_section y v) plan
              else if b
              then program_section y v plan
              else if c
              then test_section y v plan
              else if d
              then compile_section y v plan
              else none)
            ≡ named
                (if a
                  then watch_name
                  else if b
                  then program_name
                  else if c
                  then test_name
                  else if d
                  then compile_name
                  else no_name)
                v
                plan
      chosen true b c d = refl
      chosen false true c d = program_section-named v plan
      chosen false false true d = test_section-named v plan
      chosen false false false true = compile_section-named v plan
      chosen false false false false = refl

      step :
          (o : Option Text)
          → y.as_string k ≡ o
          → section y (k, v) plan ≡ keyed (y.as_string k) v plan
      step none e = rw (section, e) refl
      step (some raw) e = rw (section, e) (chosen _ _ _ _)

  >>=-none : {A B : Type 0} (o : Option A) → ◌>>=◌ {B = B} o (λ a. none) ≡ none
  >>=-none none = refl
  >>=-none (some a) = refl

  named-swap :
      (m n : SectionName) (v u : y.Node) (plan : Plan)
      → m ≢ n
      → (named m v plan >>= named n u) ≡ (named n u plan >>= named m v)
  named-swap no_name n v u plan h = sym (>>=-none (named n u plan))
  named-swap m no_name v u plan h = >>=-none (named m v plan)
  named-swap watch_name watch_name v u plan h = absurd (h refl)
  named-swap program_name program_name v u plan h = absurd (h refl)
  named-swap test_name test_name v u plan h = absurd (h refl)
  named-swap compile_name compile_name v u plan h = absurd (h refl)
  named-swap watch_name program_name v u plan h =
      on_part-swap watch_part program_part (watch_section y v) (only_step u) plan
        (record { left = λ s p. refl; right = λ t p. refl; both = λ s t p. refl })
  named-swap watch_name test_name v u plan h =
      on_part-swap watch_part test_part (watch_section y v) (any_step u) plan
        (record { left = λ s p. refl; right = λ t p. refl; both = λ s t p. refl })
  named-swap watch_name compile_name v u plan h =
      on_part-swap watch_part compile_part (watch_section y v) (only_step u) plan
        (record { left = λ s p. refl; right = λ t p. refl; both = λ s t p. refl })
  named-swap program_name test_name v u plan h =
      on_part-swap program_part test_part (only_step v) (any_step u) plan
        (record { left = λ s p. refl; right = λ t p. refl; both = λ s t p. refl })
  named-swap program_name compile_name v u plan h =
      on_part-swap program_part compile_part (only_step v) (only_step u) plan
        (record { left = λ s p. refl; right = λ t p. refl; both = λ s t p. refl })
  named-swap test_name compile_name v u plan h =
      on_part-swap test_part compile_part (any_step v) (only_step u) plan
        (record { left = λ s p. refl; right = λ t p. refl; both = λ s t p. refl })
  named-swap program_name watch_name v u plan h =
      on_part-swap program_part watch_part (only_step v) (watch_section y u) plan
        (record { left = λ s p. refl; right = λ t p. refl; both = λ s t p. refl })
  named-swap test_name watch_name v u plan h =
      on_part-swap test_part watch_part (any_step v) (watch_section y u) plan
        (record { left = λ s p. refl; right = λ t p. refl; both = λ s t p. refl })
  named-swap compile_name watch_name v u plan h =
      on_part-swap compile_part watch_part (only_step v) (watch_section y u) plan
        (record { left = λ s p. refl; right = λ t p. refl; both = λ s t p. refl })
  named-swap test_name program_name v u plan h =
      on_part-swap test_part program_part (any_step v) (only_step u) plan
        (record { left = λ s p. refl; right = λ t p. refl; both = λ s t p. refl })
  named-swap compile_name program_name v u plan h =
      on_part-swap compile_part program_part (only_step v) (only_step u) plan
        (record { left = λ s p. refl; right = λ t p. refl; both = λ s t p. refl })
  named-swap compile_name test_name v u plan h =
      on_part-swap compile_part test_part (only_step v) (any_step u) plan
        (record { left = λ s p. refl; right = λ t p. refl; both = λ s t p. refl })

  -- The two keys stand for different sections, where they are texts at all.
  abbrev pub HaveOtherNames : y.Node → y.Node → Type 0
  HaveOtherNames k l =
      (raw raw' : Text)
      → y.as_string k ≡ some raw
      → y.as_string l ≡ some raw'
      → section_name (lowercase_r raw) ≢ section_name (lowercase_r raw')

  keyed-swap :
      (o q : Option Text) (v u : y.Node) (plan : Plan)
      → ((raw raw' : Text)
          → o ≡ some raw
          → q ≡ some raw'
          → section_name (lowercase_r raw) ≢ section_name (lowercase_r raw'))
      → (keyed o v plan >>= keyed q u) ≡ (keyed q u plan >>= keyed o v)
  keyed-swap none none v u plan h = refl
  keyed-swap none (some r) v u plan h = sym (>>=-none (keyed (some r) u plan))
  keyed-swap (some r) none v u plan h = >>=-none (keyed (some r) v plan)
  keyed-swap (some r) (some r') v u plan h =
      named-swap (section_name (lowercase_r r)) (section_name (lowercase_r r')) v u plan
        (h r r' refl refl)

  section-swap :
      (k v l u : y.Node) (plan : Plan)
      → HaveOtherNames k l
      → (section y (k, v) plan >>= section y (l, u)) ≡ (section y (l, u) plan >>= section y (k, v))
  section-swap k v l u plan h =
      (λ i. section-named k v plan i >>= λ p. section-named l u p i)
      ∙ keyed-swap (y.as_string k) (y.as_string l) v u plan h
      ∙ sym (λ i. section-named l u plan i >>= λ p. section-named k v p i)

  pub plan_of-swap :
      (pre post : List (y.Node × y.Node)) (k v l u : y.Node) (plan : Plan)
      → HaveOtherNames k l
      → plan_of y (pre ++ ((k, v) ∷ (l, u) ∷ post)) plan
        ≡ plan_of y (pre ++ ((l, u) ∷ (k, v) ∷ post)) plan
  unfolding plan_of
  plan_of-swap [] post k v l u plan h =
      sym (>>=-assoc (section y (k, v) plan) (section y (l, u)) (plan_of y post))
      ∙ ap (λ o. o >>= plan_of y post) (section-swap k v l u plan h)
      ∙ >>=-assoc (section y (l, u) plan) (section y (k, v)) (plan_of y post)
  plan_of-swap (entry ∷ pre) post k v l u plan h =
      ap (λ next. section y entry plan >>= next) (λ i p. plan_of-swap pre post k v l u p h i)
