-- ===== src/Config/Watch.antt =====
-- src/config.cpp: `parseWatcher`, which fills a WatchConfig.
pub mod Filters
pub mod Reads
pub mod Tests
use renzoku.Prelude.{
  ℕ, ◌+◌, Bool, true, false, not, ◌&&◌, Option, none, some, List, [], ◌∷◌, ◌++◌, leb, ltb, ◌==◌,
  if◌then◌else◌,
}
use renzoku.Text.{Text, bytes, text_eq}
use renzoku.Yaml.{Yaml, NodeType, null, scalar, sequence, map}
use renzoku.World.{Os, cerr, wrote, M, ◌>>=◌, ◌>>◌, pure, throw, emit}
use renzoku.Log.{debug, log_me}
use renzoku.Log.Printf.{string}
use renzoku.Util.Lowercase.{lowercase}

pub record WatchConfig : Type 0 where
  pub filters : List Text
  pub includes : List Text
  pub excludes : List Text

abbrev pub no_watch : WatchConfig
no_watch = record { filters = []; includes = []; excludes = [] }

-- The count of `*` in a filter, from `count` on.
unfoldable pub asterisk_count : ℕ → Text → ℕ
asterisk_count count [] = count
asterisk_count count (c ∷ rest) = asterisk_count (if c == b'*' then count + 1 else count) rest

-- What `as<…>()` throws where the value does not convert.
pub convert : {A : Type 0} (os : Os) → Option A → M os A
convert os none = throw (bytes "bad conversion")
convert os (some a) = pure a

module _ (y : Yaml) where
  unfoldable pub is_map : y.Node → Bool
  is_map node = elim (y.kind node) [ map ↦ true | _ ↦ false ]

  unfoldable pub is_sequence : y.Node → Bool
  is_sequence node = elim (y.kind node) [ sequence ↦ true | _ ↦ false ]

  unfoldable pub is_scalar : y.Node → Bool
  is_scalar node = elim (y.kind node) [ scalar ↦ true | _ ↦ false ]

module _ (y : Yaml) (os : Os) where
  pub complain : M os (Unit {0})
  complain = emit (wrote cerr (bytes "ERROR!\n"))

  -- One filter of the list.
  pub add_filter : y.Node → WatchConfig → M os WatchConfig
  add_filter item wc = do
    val ← convert os (y.as_string item)
    log_me os debug (bytes "Filter: %s") (string val ∷ [])
    if ltb 1 (asterisk_count 0 val)
        then throw (bytes "Could not open file")
        else pure (record wc { filters = wc.filters ++ (val ∷ []) })

  pub add_filters : List y.Node → WatchConfig → M os WatchConfig
  add_filters [] wc = pure wc
  add_filters (item ∷ rest) wc = do next ← add_filter item wc; add_filters rest next

  -- The items of an `include` or `exclude`, logged under its name.
  pub read_items : Text → List y.Node → List Text → M os (List Text)
  read_items format [] found = pure found
  read_items format (item ∷ rest) found = do
    value ← convert os (y.as_string item)
    log_me os debug format (string value ∷ [])
    read_items format rest (found ++ (value ∷ []))

  -- A list of names or one name.
  pub read_names : Text → y.Node → List Text → M os (List Text)
  read_names format value found = do
    if not (is_sequence y value) && not (is_scalar y value) then complain else pure tt
    if is_sequence y value
        then read_items format (y.items value) found
        else if is_scalar y value
        then read_items format (value ∷ []) found
        else pure found

  pub read_filters : y.Node → WatchConfig → M os WatchConfig
  read_filters value wc = do
    if not (is_sequence y value) then complain else pure tt
    add_filters (y.items value) wc

  pub read_other : y.Node → WatchConfig → M os WatchConfig
  read_other value wc = do
    text ← convert os (y.as_string value)
    log_me os debug (bytes "Value: %s\n") (string text ∷ [])
    pure wc

  -- The chain of comparisons on the key of a pair.
  pub read_key : Text → y.Node → WatchConfig → M os WatchConfig
  read_key key value wc =
      if text_eq key (bytes "filter")
      then read_filters value wc
      else if text_eq key (bytes "include")
      then (do
        names ← read_names (bytes "Include: %s") value wc.includes
        pure (record wc { includes = names }))
      else if text_eq key (bytes "exclude")
      then (do
        names ← read_names (bytes "Exclude: %s") value wc.excludes
        pure (record wc { excludes = names }))
      else read_other value wc

  pub watch_entry : y.Node → y.Node → WatchConfig → M os WatchConfig
  watch_entry k v wc = do raw ← convert os (y.as_string k); read_key (lowercase raw) v wc

  pub watch_entries : List (y.Node × y.Node) → WatchConfig → M os WatchConfig
  watch_entries [] wc = pure wc
  watch_entries ((k, v) ∷ rest) wc = do next ← watch_entry k v wc; watch_entries rest next

  pub parse_watcher : y.Node → WatchConfig → M os WatchConfig
  parse_watcher node wc =
      if leb 1 (y.size node) && is_map y node then watch_entries (y.entries node) wc else pure wc
