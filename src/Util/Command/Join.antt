-- ===== src/Util/Command/Join.antt =====
-- `parseCommand` of src/util.cpp and arguments that are joined by spaces.
use renzoku.Prelude.{
  ℕ, ◌<◌, ◌≡◌, ◌≢◌, refl, ap, sym, ◌∙◌, inl, inr, Bool, true, false, some, List, [], ◌∷◌, ◌++◌, map,
  arith, Bool-cases, length, append_assoc, append-nil, All, All-append,
}
use renzoku.Text.{Text, npos, null_byte, c_str}
use renzoku.Text.Laws.{c_str_lem}
use renzoku.Util.Command.{quote_mark, space, arguments, parse_command}
use renzoku.Util.Command.Words.{quoting, separates, words, split_words, join}
use renzoku.Util.Command.Refine.{arguments-split_words}

words-ne-nil : (q : Bool) (cur rest : Text) → words q cur rest ≢ []
unfolding words
words-ne-nil q cur [] = λ e. cc
words-ne-nil q cur (c ∷ []) = λ e. ground arith
words-ne-nil q cur (c ∷ d ∷ rest) =
    λ e. ground (arith, words-ne-nil (quoting q c) (cur ++ c ∷ []) (d ∷ rest))

join-cons : (w : Text) (ws : List Text) → ws ≢ [] → join (w ∷ ws) ≡ w ++ (space ∷ join ws)
unfolding join
join-cons w [] h = absurd (h refl)
join-cons w (v ∷ ws) h = refl

separates-space : (q : Bool) (c : ℕ) → separates q c ≡ true → c ≡ space
separates-space q c h = ground arith

join-words : (q : Bool) (cur rest : Text) → join (words q cur rest) ≡ cur ++ rest
unfolding words join
join-words q cur [] = sym (append-nil cur)
join-words q cur (c ∷ []) = elim (Bool-cases (separates q c)) [
  | inl sep ↦ rw (sep, separates-space q c sep)
  | inr keep ↦ rw keep
]
join-words q cur (c ∷ d ∷ rest) = elim (Bool-cases (separates q c)) [
  | inl sep ↦
      rw (sep, words)
        (join-cons cur (words q (d ∷ []) rest) (words-ne-nil q (d ∷ []) rest)
          ∙ rw (join-words q (d ∷ []) rest, separates-space q c sep))
  | inr keep ↦
      rw (keep, words)
        (join-words (quoting q c) (cur ++ c ∷ []) (d ∷ rest) ∙ append_assoc cur (c ∷ []) (d ∷ rest))
]

join-split_words : (command : Text) → join (split_words command) ≡ command
unfolding split_words join
join-split_words [] = refl
join-split_words (c ∷ command) = join-words false [] (c ∷ command)

-- A NUL in no argument, if there is none in the command.
abbrev pub NoNull : Text → Type 0
NoNull = All (λ c. c ≢ null_byte)

words-NoNull :
    (q : Bool) (cur rest : Text)
    → NoNull cur
    → NoNull rest
    → map c_str (words q cur rest) ≡ words q cur rest
unfolding words c_str
words-NoNull q cur [] h k = rw (c_str_lem cur h)
words-NoNull q cur (c ∷ []) h k = elim (Bool-cases (separates q c)) [
  | inl sep ↦ rw sep (rw (c_str_lem cur h))
  | inr keep ↦ rw keep (rw (c_str_lem (cur ++ c ∷ []) (All-append _ cur (c ∷ []) h k)))
]
words-NoNull q cur (c ∷ d ∷ rest) h k = elim (Bool-cases (separates q c)) [
  | inl sep ↦ rw (sep, words) (rw (c_str_lem cur h, words-NoNull q (d ∷ []) rest (k.1.0, tt) k.1.1))
  | inr keep ↦
      rw (keep, words)
        (words-NoNull (quoting q c) (cur ++ c ∷ []) (d ∷ rest)
          (All-append _ cur (c ∷ []) h (k.0, tt)) k.1)
]

pub parse_command-words :
    (command : Text)
    → length command < npos
    → parse_command command ≡ some (map c_str (split_words command))
unfolding parse_command
parse_command-words command k = rw (arguments-split_words command k) refl

parse_command-split_words :
    (command : Text)
    → NoNull command
    → length command < npos
    → parse_command command ≡ some (split_words command)
unfolding parse_command split_words
parse_command-split_words [] h k = rw (arguments-split_words [] k)
parse_command-split_words (c ∷ command) h k =
    rw (arguments-split_words (c ∷ command) k) (ap some (words-NoNull false [] (c ∷ command) tt h))

-- A command without NUL bytes, shorter than `npos`, is cut into arguments, and these joined by
-- one space between each two give the command back byte for byte.
pub join-parse_command :
    (command : Text)
    → NoNull command
    → length command < npos
    → (args : List Text) × (parse_command command ≡ some args) × (join args ≡ command)
join-parse_command command h k =
    (split_words command, parse_command-split_words command h k, join-split_words command)

-- One byte that does not separate, at the head of what is left.
pub words_step :
    (q : Bool) (cur : Text) (c : ℕ) (rest : Text)
    → separates q c ≡ false
    → words q cur (c ∷ rest) ≡ words (quoting q c) (cur ++ c ∷ []) rest
unfolding words
words_step q cur c [] h = rw h
words_step q cur c (d ∷ rest) h = rw (h, words)

pub words_cut :
    (cur : Text) (d : ℕ) (rest : Text)
    → words false cur (space ∷ d ∷ rest) ≡ cur ∷ words false (d ∷ []) rest
unfolding words
words_cut cur d rest = refl

-- No byte that the scan treats apart.
abbrev pub IsBare : Text → Type 0
IsBare = All (λ c. (c ≢ space) × (c ≢ quote_mark))

pub words-IsBare :
    (w cur rest : Text) → IsBare w → words false cur (w ++ rest) ≡ words false (cur ++ w) rest
words-IsBare [] cur rest h = rw (append-nil cur)
words-IsBare (c ∷ w) cur rest h =
    let keep : separates false c ≡ false = ground (arith, h.0) in
    let flag : quoting false c ≡ false = ground (arith, h.0) in
    words_step false cur c (w ++ rest) keep
    ∙ rw flag (words-IsBare w (cur ++ c ∷ []) rest h.1 ∙ rw (append_assoc cur (c ∷ []) w))

-- An argument behind the first: its first byte is free, and the others are bare.
abbrev pub IsArgument : Text → Type 0
IsArgument [] = ⊥
IsArgument (c ∷ w) = IsBare w

join_head : (d : ℕ) (v : Text) (ws : List Text) → join ((d ∷ v) ∷ ws) ≡ d ∷ join (v ∷ ws)
unfolding join
join_head d v [] = refl
join_head d v (w ∷ ws) = refl

words-join :
    (cur w : Text) (ws : List Text)
    → IsBare w
    → All IsArgument ws
    → words false cur (join (w ∷ ws)) ≡ (cur ++ w) ∷ ws
unfolding words join
words-join cur w [] h k = ap (words false cur) (sym (append-nil w)) ∙ words-IsBare w cur [] h
words-join cur w ([] ∷ ws) h k = absurd k.0
words-join cur w ((d ∷ v) ∷ ws) h k =
    words-IsBare w cur (space ∷ join ((d ∷ v) ∷ ws)) h
    ∙ rw (join_head d v ws) (
        words_cut (cur ++ w) d (join (v ∷ ws))
        ∙ ap (λ vs. (cur ++ w) ∷ vs) (words-join (d ∷ []) v ws k.0 k.1))

split_words-cons :
    (c : ℕ) (command : Text) → split_words (c ∷ command) ≡ words false [] (c ∷ command)
unfolding split_words
split_words-cons c command = refl

-- Arguments that are joined by single spaces come back as they were, if the first is not empty
-- and has no space and no quote, and each other one is not empty and has none behind its first
-- byte.
pub arguments-join :
    (c : ℕ) (w : Text) (ws : List Text)
    → IsBare (c ∷ w)
    → All IsArgument ws
    → length (join ((c ∷ w) ∷ ws)) < npos
    → arguments (join ((c ∷ w) ∷ ws)) ≡ some ((c ∷ w) ∷ ws)
arguments-join c w ws h k short =
    arguments-split_words _ short
    ∙ ap some (
        rw (join_head c w ws) (
          split_words-cons c (join (w ∷ ws))
          ∙ rw (← join_head c w ws) (words-join [] (c ∷ w) ws h k)))
