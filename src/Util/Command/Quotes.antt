-- ===== src/Util/Command/Quotes.antt =====
-- `parseCommand` of src/util.cpp on commands with quotes.
use renzoku.Prelude.{
  ℕ, ◌<◌, ◌≡◌, ◌≢◌, refl, ap, ◌∙◌, Bool, true, false, not, some, [], ◌∷◌, ◌++◌, arith, length,
  append_assoc, append-nil, All,
}
use renzoku.Text.{Text, npos}
use renzoku.Util.Command.{quote_mark, space, arguments}
use renzoku.Util.Command.Words.{quoting, separates, words, split_words}
use renzoku.Util.Command.Refine.{arguments-split_words}
use renzoku.Util.Command.Join.{words_step, words_cut, IsBare, words-IsBare}

abbrev pub HasNoQuote : Text → Type 0
HasNoQuote = All (λ c. c ≢ quote_mark)

words-HasNoQuote :
    (a cur rest : Text) → HasNoQuote a → words true cur (a ++ rest) ≡ words true (cur ++ a) rest
words-HasNoQuote [] cur rest h = rw (append-nil cur)
words-HasNoQuote (c ∷ a) cur rest h =
    let keep : separates true c ≡ false = ground (arith, h.0) in
    let flag : quoting true c ≡ true = ground (arith, h.0) in
    words_step true cur c (a ++ rest) keep
    ∙ rw flag (words-HasNoQuote a (cur ++ c ∷ []) rest h.1 ∙ rw (append_assoc cur (c ∷ []) a))

words-quote :
    (q : Bool) (cur rest : Text)
    → words q cur (quote_mark ∷ rest) ≡ words (not q) (cur ++ quote_mark ∷ []) rest
words-quote true cur rest = words_step true cur quote_mark rest refl
words-quote false cur rest = words_step false cur quote_mark rest refl

split_words_lem : (s : Text) → s ≢ [] → split_words s ≡ words false [] s
unfolding split_words
split_words_lem [] h = absurd (h refl)
split_words_lem (c ∷ s) h = refl

append-ne-nil : (p : Text) (c : ℕ) (s : Text) → p ++ c ∷ s ≢ []
append-ne-nil [] c s e = cc
append-ne-nil (d ∷ p) c s e = cc

words-nil : (q : Bool) (cur : Text) → words q cur [] ≡ cur ∷ []
unfolding words
words-nil q cur = refl

-- Bare bytes, then a text in quotes: one argument, with its spaces and with both quotes.
pub arguments_quoted :
    (p a : Text)
    → IsBare p
    → HasNoQuote a
    → length (p ++ quote_mark ∷ (a ++ quote_mark ∷ [])) < npos
    → arguments (p ++ quote_mark ∷ (a ++ quote_mark ∷ []))
      ≡ some ((p ++ quote_mark ∷ (a ++ quote_mark ∷ [])) ∷ [])
arguments_quoted p a h k short =
    arguments-split_words _ short
    ∙ ap some (
        split_words_lem _ (append-ne-nil p quote_mark (a ++ quote_mark ∷ []))
        ∙ words-IsBare p [] (quote_mark ∷ (a ++ quote_mark ∷ [])) h
        ∙ words-quote false p (a ++ quote_mark ∷ [])
        ∙ words-HasNoQuote a (p ++ quote_mark ∷ []) (quote_mark ∷ []) k
        ∙ words-quote true ((p ++ quote_mark ∷ []) ++ a) []
        ∙ words-nil false (((p ++ quote_mark ∷ []) ++ a) ++ quote_mark ∷ [])
        ∙ simp append_assoc)

-- A quote at the start of an argument behind the first is not seen: a quoted text of two bare
-- parts with a space between them comes back as two arguments.
pub arguments_quoted_split :
    (w a b : Text) (d : ℕ)
    → IsBare w
    → IsBare a
    → IsBare b
    → length (w ++ space ∷ quote_mark ∷ (a ++ space ∷ d ∷ (b ++ quote_mark ∷ []))) < npos
    → arguments (w ++ space ∷ quote_mark ∷ (a ++ space ∷ d ∷ (b ++ quote_mark ∷ [])))
      ≡ some (w ∷ (quote_mark ∷ a) ∷ (d ∷ (b ++ quote_mark ∷ [])) ∷ [])
arguments_quoted_split w a b d hw ha hb short =
    arguments-split_words _ short
    ∙ ap some (
        split_words_lem _ (append-ne-nil w space _)
        ∙ words-IsBare w [] (space ∷ quote_mark ∷ (a ++ space ∷ d ∷ (b ++ quote_mark ∷ []))) hw
        ∙ words_cut w quote_mark (a ++ space ∷ d ∷ (b ++ quote_mark ∷ []))
        ∙ ap (λ ws. w ∷ ws)
            (words-IsBare a (quote_mark ∷ []) (space ∷ d ∷ (b ++ quote_mark ∷ [])) ha
              ∙ words_cut (quote_mark ∷ a) d (b ++ quote_mark ∷ [])
              ∙ ap (λ ws. (quote_mark ∷ a) ∷ ws)
                  (words-IsBare b (d ∷ []) (quote_mark ∷ []) hb
                    ∙ words-quote false (d ∷ b) []
                    ∙ words-nil true (d ∷ (b ++ quote_mark ∷ [])))))
