-- ===== src/Config/Watch/Reads.antt =====
-- `parseWatcher` of src/config.cpp against the section of a plan.
use renzoku.Prelude.{
  ◌≡◌, refl, sym, ap, Bool, true, false, Bool-cases, inl, inr, not, ◌&&◌, Option, none, some, List,
  [], ◌∷◌, ◌++◌, ltb, if◌then◌else◌, append_assoc, append-nil,
}
use renzoku.Text.{Text, bytes, text_eq}
use renzoku.Yaml.{Yaml}
use renzoku.World.{Os, World, done, pure}
use renzoku.World.Does.{started_by}
use renzoku.World.Ends.{Leaves, Leaves-pure, Leaves-emit, Leaves-if}
use renzoku.Util.Command.{◌>>=◌}
use renzoku.Util.Lowercase.{lowercase}
use renzoku.Log.{debug}
use renzoku.Log.Printf.{string}
use renzoku.Log.Returns.{Fits}
use renzoku.Log.Leaves.{Leaves-log_me}
use renzoku.Config.Formats.{filter-Fits, include-Fits, exclude-Fits, value-Fits}
use renzoku.Config.Reads.{
  Reads, Reads-bind, Reads-then, Reads-pure, Reads-as, Reads-throw, Reads-if,
}
use renzoku.Config.Plan.{all_checked, texts, names, watch_setting, watch_settings, watch_section}
use renzoku.Config.Watch.{
  WatchConfig, asterisk_count, convert, is_sequence, is_scalar, complain, add_filter, add_filters,
  read_items, read_names, read_filters, read_other, read_key, watch_entry, watch_entries,
  parse_watcher,
}

pub Reads-convert : {A : Type 0} (os : Os) (o : Option A) → Reads o (convert os o)
unfolding convert
Reads-convert os none = Reads-throw (bytes "bad conversion")
Reads-convert os (some a) = Reads-pure a

pub convert-some : {A : Type 0} (os : Os) (a : A) (w : World os) → convert os (some a) w ≡ done a w
unfolding convert
convert-some os a w = refl

-- One filter behind those that a section has.
abbrev filter_from : WatchConfig → Text → Option WatchConfig
filter_from wc t =
    if ltb 1 (asterisk_count 0 t)
    then none
    else some (record wc { filters = wc.filters ++ (t ∷ []) })

-- All filters of a list, behind those that it has.
abbrev filters_from : (y : Yaml) → List y.Node → WatchConfig → Option WatchConfig
filters_from y items wc = do
  ts ← texts y items
  if all_checked ts then some (record wc { filters = wc.filters ++ ts }) else none

-- The same, read one by one.
filters-cons :
    (y : Yaml) (item : y.Node) (rest : List y.Node) (wc : WatchConfig) (o : Option Text)
    (os : Option (List Text))
    → y.as_string item ≡ o
    → texts y rest ≡ os
    → filters_from y (item ∷ rest) wc ≡ ((o >>= filter_from wc) >>= filters_from y rest)
unfolding texts
filters-cons y item rest wc none os e f = rw e
filters-cons y item rest wc (some t) none e f = elim (Bool-cases (ltb 1 (asterisk_count 0 t))) [
  | inl many ↦ rw (e, f, many) refl
  | inr few ↦ rw (e, few, f) refl
]
filters-cons y item rest wc (some t) (some ts) e f =
    elim (Bool-cases (ltb 1 (asterisk_count 0 t))) [
      | inl many ↦ rw (e, f, many) refl
      | inr few ↦ rw (e, few) (rw (f, few) (rw (← append_assoc wc.filters (t ∷ []) ts) refl))
    ]

module _ (y : Yaml) (os : Os) where
  Reads-add_filter :
      (item : y.Node) (wc : WatchConfig)
      → Reads (y.as_string item >>= filter_from wc) (add_filter y os item wc)
  unfolding add_filter
  Reads-add_filter item wc = Reads-bind (Reads-convert os (y.as_string item)) λ t _.
      Reads-then (Leaves-log_me debug _ _ (filter-Fits t))
        (Reads-if (ltb 1 (asterisk_count 0 t)) (λ _. Reads-throw _) (λ _. Reads-pure _))

  Reads-add_filters :
      (items : List y.Node) (wc : WatchConfig)
      → Reads (filters_from y items wc) (add_filters y os items wc)
  unfolding add_filters texts
  Reads-add_filters [] wc = rw (append-nil wc.filters) (Reads-pure wc)
  Reads-add_filters (item ∷ rest) wc =
      rw (filters-cons y item rest wc (y.as_string item) (texts y rest) refl refl)
        (Reads-bind (Reads-add_filter item wc) (λ next _. Reads-add_filters rest next))

  -- One name of a list.
  Reads-read_items :
      (format : Text) (fits : (t : Text) → Fits format (string t ∷ [])) (items : List y.Node)
      (found : List Text)
      → Reads (texts y items >>= λ ts. some (found ++ ts)) (read_items y os format items found)
  unfolding read_items texts
  Reads-read_items format fits [] found = rw (append-nil found) (Reads-pure found)
  Reads-read_items format fits (item ∷ rest) found =
      rw (items-cons (y.as_string item) (texts y rest)) (
        Reads-bind (Reads-convert os (y.as_string item)) λ t _.
          Reads-then (Leaves-log_me debug _ _ (fits t))
            (Reads-read_items format fits rest (found ++ (t ∷ []))))
    where
      items-cons :
          (o : Option Text) (ts : Option (List Text))
          → ((o >>= λ t. ts >>= λ us. some (t ∷ us)) >>= λ us. some (found ++ us))
            ≡ (o >>= λ t. ts >>= λ us. some ((found ++ (t ∷ [])) ++ us))
      items-cons none ts = refl
      items-cons (some t) none = refl
      items-cons (some t) (some us) = ap some (sym (append_assoc found (t ∷ []) us))

  Leaves-complain :
      {E : Type 0} (b : Bool) → Leaves (λ _. Unit {0}) E (if b then complain y os else pure tt)
  unfolding complain started_by
  Leaves-complain b = Leaves-if b (λ _. Leaves-emit _ refl) (λ _. Leaves-pure tt tt)

  Reads-read_names :
      (format : Text) (fits : (t : Text) → Fits format (string t ∷ [])) (v : y.Node)
      (found : List Text)
      → Reads (names y v >>= λ ts. some (found ++ ts)) (read_names y os format v found)
  unfolding read_names names
  Reads-read_names format fits v found =
      Reads-then (Leaves-complain (not (is_sequence y v) && not (is_scalar y v))) (
        Reads-as (by_kind (is_sequence y v) (is_scalar y v)) (
          Reads-if (is_sequence y v) (λ _. Reads-read_items format fits (y.items v) found)
            λ _.
              Reads-if (is_scalar y v) (λ _. Reads-read_items format fits (v ∷ []) found)
                (λ _. Reads-pure found)))
    where
      by_kind :
          (b c : Bool)
          → (if b
              then (texts y (y.items v) >>= λ ts. some (found ++ ts))
              else if c
              then (texts y (v ∷ []) >>= λ ts. some (found ++ ts))
              else some found)
            ≡ ((if b then texts y (y.items v) else if c then texts y (v ∷ []) else some [])
                >>= λ ts. some (found ++ ts))
      by_kind true c = refl
      by_kind false true = refl
      by_kind false false = rw (append-nil found) refl

  named-include :
      (wc : WatchConfig) (o : Option (List Text))
      → ((o >>= λ ts. some (wc.includes ++ ts)) >>= λ ts. some (record wc { includes = ts }))
        ≡ (o >>= λ ts. some (record wc { includes = wc.includes ++ ts }))
  named-include wc none = refl
  named-include wc (some ts) = refl

  named-exclude :
      (wc : WatchConfig) (o : Option (List Text))
      → ((o >>= λ ts. some (wc.excludes ++ ts)) >>= λ ts. some (record wc { excludes = ts }))
        ≡ (o >>= λ ts. some (record wc { excludes = wc.excludes ++ ts }))
  named-exclude wc none = refl
  named-exclude wc (some ts) = refl

  Reads-read_key :
      (k v : y.Node) (wc : WatchConfig)
      → Reads (watch_setting y (k, v) wc) (watch_entry y os k v wc)
  unfolding watch_entry watch_setting read_key read_filters read_other
  Reads-read_key k v wc = Reads-bind (Reads-convert os (y.as_string k)) λ raw _.
      Reads-if (text_eq (lowercase raw) (bytes "filter"))
        (λ _.
          Reads-then (Leaves-complain (not (is_sequence y v))) (Reads-add_filters (y.items v) wc))
        λ _.
          Reads-if (text_eq (lowercase raw) (bytes "include"))
            (λ _. Reads-as (named-include wc (names y v)) (
              Reads-bind (Reads-read_names (bytes "Include: %s") include-Fits v wc.includes)
                λ ts _. Reads-pure _))
            λ _.
              Reads-if (text_eq (lowercase raw) (bytes "exclude"))
                (λ _. Reads-as (named-exclude wc (names y v)) (
                  Reads-bind (Reads-read_names (bytes "Exclude: %s") exclude-Fits v wc.excludes)
                    λ ts _. Reads-pure _))
                λ _.
                  Reads-bind (Reads-convert os (y.as_string v)) λ value _.
                    Reads-then (Leaves-log_me debug _ _ (value-Fits value)) (Reads-pure wc)

  Reads-watch_entries :
      (entries : List (y.Node × y.Node)) (wc : WatchConfig)
      → Reads (watch_settings y entries wc) (watch_entries y os entries wc)
  unfolding watch_entries watch_settings
  Reads-watch_entries [] wc = Reads-pure wc
  Reads-watch_entries ((k, v) ∷ rest) wc =
      Reads-bind (Reads-read_key k v wc) (λ next _. Reads-watch_entries rest next)

  pub Reads-parse_watcher :
      (node : y.Node) (wc : WatchConfig)
      → Reads (watch_section y node wc) (parse_watcher y os node wc)
  unfolding parse_watcher watch_section
  Reads-parse_watcher node wc =
      Reads-if _ (λ _. Reads-watch_entries (y.entries node) wc) (λ _. Reads-pure wc)
