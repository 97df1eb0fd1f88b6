-- ===== src/Util/Command/Refine.antt =====
-- The scan of `parseCommand`, src/util.cpp, against `split_words`.
use renzoku.Prelude.{
  ℕ, zero, suc, ◌+◌, ◌≤◌, ◌<◌, ◌≡◌, refl, ap, ◌∙◌, inl, inr, Bool, true, false, some, List, [], ◌∷◌,
  ◌++◌, arith, Bool-cases, length, length-append, append_assoc, drop-append_length,
}
use renzoku.Text.{Text, npos}
use renzoku.Util.Command.{again, finished, round, scan, arguments}
use renzoku.Util.Command.Words.{quoting, separates, words, split_words}
use renzoku.Util.Command.Steps.{
  cursor, advance_again, advance_end, switch_keep, switch-cut, cut_lem, round_lem,
}

module _ (command done cur : Text) (c : ℕ) (q : Bool) (args : List Text) where
  -- The cursor moves on inside an argument.
  round_keep :
      (d : ℕ) (rest : Text)
      → command ≡ done ++ (cur ++ c ∷ d ∷ rest)
      → length command < npos
      → separates q c ≡ false
      → round command (cursor done cur q args)
        ≡ some (again (cursor done (cur ++ c ∷ []) (quoting q c) args))
  round_keep d rest e k h =
      let total = length-append done (cur ++ c ∷ d ∷ rest) in
      let inner = length-append cur (c ∷ d ∷ rest) in
      rw e (
        round_lem done cur c (d ∷ rest) q args (rw e at k) (switch_keep _ c _ h)
        ∙ advance_again _ _ (omega arith) (rw e at k)
        ∙ rw (length-append cur (c ∷ [])))

  -- The last byte of the command, inside an argument.
  round_keep_last :
      command ≡ done ++ (cur ++ c ∷ [])
      → length command < npos
      → separates q c ≡ false
      → round command (cursor done cur q args) ≡ some (finished (args ++ ((cur ++ c ∷ []) ∷ [])))
  round_keep_last e k h =
      let total = length-append done (cur ++ c ∷ []) in
      let inner = length-append cur (c ∷ []) in
      let small : length (done ++ (cur ++ c ∷ [])) < npos = rw e at k in
      rw e (
        round_lem done cur c [] q args (rw e at k) (switch_keep _ c _ h)
        ∙ advance_end _ _ (omega arith) (omega arith) (omega arith)
        ∙ rw (drop-append_length done (cur ++ c ∷ [])))

  -- A separator with two bytes or more behind it.
  round_cut :
      (d f : ℕ) (rest : Text)
      → command ≡ done ++ (cur ++ c ∷ d ∷ f ∷ rest)
      → length command < npos
      → separates q c ≡ true
      → round command (cursor done cur q args)
        ≡ some (again (cursor (done ++ (cur ++ c ∷ [])) (d ∷ []) q (args ++ (cur ∷ []))))
  round_cut d f rest e k h =
      let total = length-append done (cur ++ c ∷ d ∷ f ∷ rest) in
      let inner = length-append cur (c ∷ d ∷ f ∷ rest) in
      let front = length-append done (cur ++ c ∷ []) in
      let here : length done + length cur + 1 ≡ length (done ++ (cur ++ c ∷ [])) =
        omega (arith, length-append cur (c ∷ [])) in
      rw e (
        round_lem done cur c (d ∷ f ∷ rest) q args (rw e at k)
          (switch-cut _ c _ h ∙ cut_lem done cur (c ∷ d ∷ f ∷ rest) q args (rw e at k))
        ∙ advance_again _ _ (omega arith) (rw e at k)
        ∙ rw here)

  -- A separator with one byte or none behind it ends the loop.
  round_cut_last :
      (rest : Text)
      → command ≡ done ++ (cur ++ c ∷ rest)
      → length rest ≤ 1
      → length command < npos
      → separates q c ≡ true
      → round command (cursor done cur q args)
        ≡ some (finished ((args ++ (cur ∷ [])) ++ (rest ∷ [])))
  round_cut_last rest e short k h =
      let total = length-append done (cur ++ c ∷ rest) in
      let inner = length-append cur (c ∷ rest) in
      let small : length (done ++ (cur ++ c ∷ rest)) < npos = rw e at k in
      let front = length-append done (cur ++ c ∷ []) in
      let here : length done + length cur + 1 ≡ length (done ++ (cur ++ c ∷ [])) =
        omega (arith, length-append cur (c ∷ [])) in
      let same : done ++ (cur ++ c ∷ rest) ≡ (done ++ (cur ++ c ∷ [])) ++ rest =
        simp append_assoc in
      rw e (
        round_lem done cur c rest q args (rw e at k)
          (switch-cut _ c _ h ∙ cut_lem done cur (c ∷ rest) q args (rw e at k))
        ∙ advance_end _ _ (omega arith) (omega arith) (omega arith)
        ∙ rw (here, same, drop-append_length (done ++ (cur ++ c ∷ [])) rest))

-- The loop from any cursor, with a round of fuel for each byte that is left.
scan-words :
    (fuel : ℕ) (command done cur : Text) (c : ℕ) (rest : Text) (q : Bool) (args : List Text)
    → length (c ∷ rest) ≤ fuel
    → command ≡ done ++ (cur ++ c ∷ rest)
    → length command < npos
    → scan fuel command (cursor done cur q args) ≡ some (args ++ words q cur (c ∷ rest))
unfolding scan words
scan-words zero command done cur c rest q args f e k = absurd (omega arith)
scan-words (suc fuel) command done cur c [] q args f e k = elim (Bool-cases (separates q c)) [
  | inl sep ↦
      rw (round_cut_last command done cur c q args [] e (omega arith) k sep, scan, sep, words)
        (ap some (append_assoc args (cur ∷ []) ([] ∷ [])))
  | inr keep ↦ rw (round_keep_last command done cur c q args e k keep, scan, keep, words)
]
scan-words (suc fuel) command done cur c (d ∷ []) q args f e k = elim (Bool-cases (separates q c)) [
  | inl sep ↦
      rw (round_cut_last command done cur c q args (d ∷ []) e (omega arith) k sep, scan, sep, words)
        (ap some (append_assoc args (cur ∷ []) ((d ∷ []) ∷ [])))
  | inr keep ↦
      rw (round_keep command done cur c q args d [] e k keep, scan, keep, words)
        (scan-words fuel command done (cur ++ c ∷ []) d [] (quoting q c) args (omega arith)
          (e ∙ simp append_assoc) k)
]
scan-words (suc fuel) command done cur c (d ∷ g ∷ rest) q args f e k =
    elim (Bool-cases (separates q c)) [
      | inl sep ↦
          rw (round_cut command done cur c q args d g rest e k sep, scan, sep, words)
            (scan-words fuel command (done ++ (cur ++ c ∷ [])) (d ∷ []) g rest q
                (args ++ (cur ∷ [])) (omega arith) (e ∙ simp append_assoc) k
              ∙ ap some (append_assoc args (cur ∷ []) (words q (d ∷ []) (g ∷ rest))))
      | inr keep ↦
          rw (round_keep command done cur c q args d (g ∷ rest) e k keep, scan, keep, words)
            (scan-words fuel command done (cur ++ c ∷ []) d (g ∷ rest) (quoting q c) args
              (omega arith) (e ∙ simp append_assoc) k)
    ]

-- For a command shorter than `npos` the loop ends within one round for each byte and one more, no
-- index or `substr` leaves the command, and the arguments are the words of the command.
pub arguments-split_words :
    (command : Text) → length command < npos → arguments command ≡ some (split_words command)
unfolding arguments split_words scan round
arguments-split_words [] k = refl
arguments-split_words (c ∷ command) k =
    scan-words (length (c ∷ command) + 1) (c ∷ command) [] [] c command false [] (omega arith) refl
      k
