-- ===== src/Config/Watch/Filters.antt =====
-- The check of `parseWatcher`, src/config.cpp, on the filters of the config file.
use renzoku.Prelude.{
  ℕ, ◌+◌, ◌≤◌, ◌≡◌, ◌≢◌, refl, ap, ◌∙◌, Bool, true, false, not, ◌==◌, ◌++◌, if◌then◌else◌, ◌&&◌,
  Option, none, some, List, [], ◌∷◌, arith, ltb, All, All-append,
}
use renzoku.Text.{Text, text_eq, bytes}
use renzoku.Yaml.{Yaml}
use renzoku.World.{Os, Event}
use renzoku.World.Traces.{
  Traces, ends, Traces-bind, Traces-then, Traces-pure, Traces-emit, Traces-if,
}
use renzoku.Log.{debug}
use renzoku.Log.Quiet.{Traces-log_me}
use renzoku.Util.Lowercase.{lowercase}
use renzoku.Config.Watch.{
  WatchConfig, asterisk_count, convert, is_sequence, is_scalar, complain, add_filter, add_filters,
  read_items, read_names, read_filters, read_other, read_key, watch_entry, watch_entries,
  parse_watcher,
}

-- A filter with one asterisk at most: it is no text with two.
abbrev pub HasOneStar : Text → Type 0
HasOneStar filter = (a b c : Text) → filter ≢ a ++ (b'*' ∷ (b ++ (b'*' ∷ c)))

asterisk_count-from : (n : ℕ) (t : Text) → n ≤ asterisk_count n t
unfolding asterisk_count
asterisk_count-from n [] = omega arith
asterisk_count-from n (c ∷ t) =
    counted (c == b'*') (asterisk_count-from (n + 1) t) (asterisk_count-from n t)
  where
    counted :
        (b : Bool)
        → n + 1 ≤ asterisk_count (n + 1) t
        → n ≤ asterisk_count n t
        → n ≤ asterisk_count (if b then n + 1 else n) t
    counted true more same = omega arith
    counted false more same = same

asterisk_count-append :
    (n : ℕ) (a b : Text) → asterisk_count n (a ++ b) ≡ asterisk_count (asterisk_count n a) b
unfolding asterisk_count
asterisk_count-append n [] b = refl
asterisk_count-append n (c ∷ a) b = asterisk_count-append (if c == b'*' then n + 1 else n) a b

-- From an asterisk on.
asterisk_count-star : (n : ℕ) (t : Text) → n + 1 ≤ asterisk_count n (b'*' ∷ t)
unfolding asterisk_count
asterisk_count-star n t = asterisk_count-from (n + 1) t

starred :
    (n : ℕ) (b c : Text)
    → asterisk_count n (b'*' ∷ (b ++ (b'*' ∷ c)))
      ≡ asterisk_count (asterisk_count (n + 1) b) (b'*' ∷ c)
unfolding asterisk_count
starred n b c = asterisk_count-append (n + 1) b (b'*' ∷ c)

few-HasOneStar : (filter : Text) → asterisk_count 0 filter ≤ 1 → HasOneStar filter
few-HasOneStar filter few a b c e =
    let first = asterisk_count 0 a in
    let second = asterisk_count (first + 1) b in
    let one = asterisk_count-from (first + 1) b in
    let two = asterisk_count-star second c in
    let whole : asterisk_count 0 filter ≡ asterisk_count second (b'*' ∷ c) =
      (ap (asterisk_count 0) e
        ∙ asterisk_count-append 0 a (b'*' ∷ (b ++ (b'*' ∷ c)))
        ∙ starred first b c) in
    omega (arith, few, one, two, whole)

-- Each filter of the section has one asterisk at most.
abbrev pub IsChecked : WatchConfig → Type 0
IsChecked wc = All HasOneStar wc.filters

-- The section that a call returns is checked.
abbrev pub Checked : WatchConfig → List Event → Type 0
Checked wc es = IsChecked wc

abbrev pub Anything : {A : Type 0} → A → List Event → Type 0
Anything a es = Unit

pub Traces-convert :
    {A : Type 0} (os : Os) (o : Option A) → Traces (λ a es. o ≡ some a) (convert os o)
unfolding convert
Traces-convert os none = record { apply = λ w. ends }
Traces-convert os (some a) = Traces-pure a refl

module _ (y : Yaml) (os : Os) where
  Traces-add_filter :
      (item : y.Node) (wc : WatchConfig) → IsChecked wc → Traces Checked (add_filter y os item wc)
  unfolding add_filter
  Traces-add_filter item wc h = Traces-bind (Traces-convert os (y.as_string item)) λ val _ _.
      Traces-then (Traces-log_me os debug _ _) λ _ _ _.
        Traces-if (ltb 1 (asterisk_count 0 val)) (λ many. record { apply = λ w. ends })
          (λ few.
            Traces-pure _ (
              All-append HasOneStar wc.filters (val ∷ []) h
                (few-HasOneStar val (ground arith), tt)))

  Traces-add_filters :
      (items : List y.Node) (wc : WatchConfig)
      → IsChecked wc
      → Traces Checked (add_filters y os items wc)
  unfolding add_filters
  Traces-add_filters [] wc h = Traces-pure wc h
  Traces-add_filters (item ∷ rest) wc h =
      Traces-bind (Traces-add_filter item wc h) λ next _ h'. Traces-add_filters rest next h'

  Traces-read_items :
      (format : Text) (items : List y.Node) (found : List Text)
      → Traces Anything (read_items y os format items found)
  unfolding read_items
  Traces-read_items format [] found = Traces-pure found tt
  Traces-read_items format (item ∷ rest) found =
      Traces-bind (Traces-convert os (y.as_string item)) λ value _ _.
        Traces-then (Traces-log_me os debug _ _) λ _ _ _. Traces-read_items format rest _

  Traces-complain : Traces Anything (complain y os)
  unfolding complain
  Traces-complain = Traces-emit _ tt

  Traces-read_names :
      (format : Text) (value : y.Node) (found : List Text)
      → Traces Anything (read_names y os format value found)
  unfolding read_names
  Traces-read_names format value found =
      Traces-then
        (Traces-if {R = Anything} (not (is_sequence y value) && not (is_scalar y value))
          (λ _. Traces-complain) (λ _. Traces-pure tt tt))
        λ _ _ _.
          Traces-if (is_sequence y value) (λ _. Traces-read_items format (y.items value) found)
            (λ _.
              Traces-if (is_scalar y value) (λ _. Traces-read_items format (value ∷ []) found)
                (λ _. Traces-pure found tt))

  Traces-read_filters :
      (value : y.Node) (wc : WatchConfig)
      → IsChecked wc
      → Traces Checked (read_filters y os value wc)
  unfolding read_filters
  Traces-read_filters value wc h =
      Traces-then
        (Traces-if {R = Anything} (not (is_sequence y value)) (λ _. Traces-complain)
          (λ _. Traces-pure tt tt))
        λ _ _ _. Traces-add_filters (y.items value) wc h

  Traces-read_key :
      (key : Text) (value : y.Node) (wc : WatchConfig)
      → IsChecked wc
      → Traces Checked (read_key y os key value wc)
  unfolding read_key read_other
  Traces-read_key key value wc h =
      Traces-if (text_eq key (bytes "filter")) (λ _. Traces-read_filters value wc h)
        λ _.
          Traces-if (text_eq key (bytes "include"))
            (λ _. Traces-bind (Traces-read_names _ value wc.includes) λ names _ _. Traces-pure _ h)
            λ _.
              Traces-if (text_eq key (bytes "exclude"))
                (λ _.
                  Traces-bind (Traces-read_names _ value wc.excludes) λ names _ _. Traces-pure _ h)
                λ _.
                  Traces-bind (Traces-convert os (y.as_string value))
                    λ text _ _. Traces-then (Traces-log_me os debug _ _) λ _ _ _. Traces-pure wc h

  Traces-watch_entries :
      (entries : List (y.Node × y.Node)) (wc : WatchConfig)
      → IsChecked wc
      → Traces Checked (watch_entries y os entries wc)
  unfolding watch_entries watch_entry
  Traces-watch_entries [] wc h = Traces-pure wc h
  Traces-watch_entries ((k, v) ∷ rest) wc h =
      Traces-bind
        (Traces-bind (Traces-convert os (y.as_string k))
          λ raw _ _. Traces-read_key (lowercase raw) v wc h)
        λ next _ h'. Traces-watch_entries rest next h'

  -- Wherever `parseWatcher` returns, whatever the node holds, the section has no filter with more
  -- than one asterisk, if that held of the section before.
  pub parse_watcher-IsChecked :
      (node : y.Node) (wc : WatchConfig)
      → IsChecked wc
      → Traces Checked (parse_watcher y os node wc)
  unfolding parse_watcher
  parse_watcher-IsChecked node wc h =
      Traces-if _ (λ _. Traces-watch_entries (y.entries node) wc h) (λ _. Traces-pure wc h)
