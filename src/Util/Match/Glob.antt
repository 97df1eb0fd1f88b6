-- ===== src/Util/Match/Glob.antt =====
-- `strMatch` of src/util.cpp against a relation that is stated without indices and machine
-- numbers.
use renzoku.Prelude.{
  &&-eq-true, suc, ◌+◌, ◌≤◌, ◌<◌, ◌≡◌, ◌≢◌, refl, ap, sym, ◌∙◌, ◌↔◌, inl, inr, Bool, true, false,
  some, [], ◌∷◌, ◌++◌, arith, leb, Bool-cases, leb→le, length, length-append, append_assoc,
}
use renzoku.Text.{Text, size_mod}
use renzoku.Text.Laws.{take-eq_iff, drop-eq_iff, append_overlap}
use renzoku.Util.Match.{star, match_ends, str_match}
use renzoku.Util.Match.Laws.{NoStar, split_last, ends_agree, match_ends-append, match_ends-NoStar}

-- An expression with an asterisk matches what its last asterisk can stand for, at least one byte.
-- One without an asterisk matches what begins and ends with it.
pub data Glob (e s : Text) : Type 0 where
  wild :
      (pre mid suf : Text)
      → NoStar suf
      → mid ≢ []
      → e ≡ pre ++ star ∷ suf
      → s ≡ pre ++ (mid ++ suf)
      → Glob e s
  plain : (t u : Text) → NoStar e → e ≢ [] → s ≡ e ++ t → s ≡ u ++ e → Glob e s

-- The early returns.
str_match-guards :
    (e s : Text)
    → str_match e s ≡ some true
    → (e ≢ []) × (length e ≤ length s) × (match_ends e s ≡ some true)
unfolding str_match
str_match-guards [] s h = cc
str_match-guards (c ∷ e) s h = ((λ eq. cc), ground arith, ground arith)

str_match_fits : (e s : Text) → e ≢ [] → length e ≤ length s → str_match e s ≡ match_ends e s
unfolding str_match
str_match_fits [] s h k = absurd (h refl)
str_match_fits (c ∷ e) s h k = ground arith

ends_agree_middle :
    (pre suf s : Text)
    → suc (length pre + length suf) ≤ length s
    → ends_agree pre suf s ≡ true
    → (mid : Text) × (mid ≢ []) × (s ≡ pre ++ (mid ++ suf))
ends_agree_middle pre suf s h k =
    let (begins, ends) = &&-eq-true _ _ k in
    let (r, er) = (take-eq_iff pre s).0 begins in
    let (l, el) = (drop-eq_iff suf s (omega arith)).0 ends in
    let total : length s ≡ length l + length suf = rw el (length-append l suf) in
    let (mid, em) = append_overlap pre r l suf (sym er ∙ el) (omega arith) in
    let inner : length l ≡ length pre + length mid = rw em (length-append pre mid) in
    (
      mid,
      (λ empty. let none_left : length mid ≡ 0 = ap length empty in omega arith),
      el ∙ rw em (append_assoc pre mid suf),
    )

middle-ends_agree : (pre mid suf s : Text) → s ≡ pre ++ (mid ++ suf) → ends_agree pre suf s ≡ true
middle-ends_agree pre mid suf s e =
    let fits : length suf ≤ length s =
      rw e (omega (arith, length-append pre (mid ++ suf), length-append mid suf)) in
    rw (
      (take-eq_iff pre s).1 (mid ++ suf, e),
      (drop-eq_iff suf s fits).1 (pre ++ mid, e ∙ sym (append_assoc pre mid suf)),
    )

-- The test of an expression that is cut at its last asterisk.
str_match-wild :
    (pre suf s : Text)
    → NoStar suf
    → length s < size_mod
    → str_match (pre ++ star ∷ suf) s ≡ some true
    → (mid : Text) × (mid ≢ []) × (s ≡ pre ++ (mid ++ suf))
str_match-wild pre suf s clean k h =
    let (full, fits, ends) = str_match-guards (pre ++ star ∷ suf) s h in
    let room = length-append pre (star ∷ suf) in
    let agrees : ends_agree pre suf s ≡ true =
      cc (match_ends-append pre suf s clean fits k, ends) in
    ends_agree_middle pre suf s (omega arith) agrees

wild-str_match :
    (pre mid suf s : Text)
    → NoStar suf
    → length s < size_mod
    → mid ≢ []
    → s ≡ pre ++ (mid ++ suf)
    → str_match (pre ++ star ∷ suf) s ≡ some true
wild-str_match pre [] suf s clean k some_mid e = absurd (some_mid refl)
wild-str_match pre (c ∷ mid) suf s clean k some_mid e =
    let fits : length (pre ++ star ∷ suf) ≤ length s = rw e (
      omega (
        arith,
        length-append pre (star ∷ suf),
        length-append pre ((c ∷ mid) ++ suf),
        length-append mid suf,
      )) in
    str_match_fits (pre ++ star ∷ suf) s
      (λ empty.
        let no_room : length (pre ++ star ∷ suf) ≡ 0 = ap length empty in
        omega (arith, length-append pre (star ∷ suf)))
      fits
    ∙ match_ends-append pre suf s clean fits k
    ∙ ap some (middle-ends_agree pre (c ∷ mid) suf s e)

str_match-plain :
    (e s : Text) → NoStar e → length s < size_mod → str_match e s ≡ some true → Glob e s
str_match-plain e s clean k h =
    let (full, fits, ends) = str_match-guards e s h in
    let agrees : ends_agree e e s ≡ true = cc (match_ends-NoStar e s clean fits k, ends) in
    let (begins, finishes) = &&-eq-true _ _ agrees in
    let (t, et) = (take-eq_iff e s).0 begins in
    let (u, eu) = (drop-eq_iff e s fits).0 finishes in plain t u clean full et eu

-- For strings shorter than the address space, `strMatch` returns true exactly on the pairs of
-- `Glob`: around the last asterisk of the expression the string has the parts before and behind
-- it, with one byte or more in between; without an asterisk it begins and ends with the
-- expression.
pub str_match_iff : (e s : Text) → length s < size_mod → (str_match e s ≡ some true) ↔ Glob e s
str_match_iff e s k = (accepted, matches)
  where
    accepted : str_match e s ≡ some true → Glob e s
    accepted h = elim (split_last e) [
      | inl clean ↦ str_match-plain e s clean k h
      | inr (pre, suf, clean, eq) ↦
          let (mid, some_mid, cut) = str_match-wild pre suf s clean k (rw eq at h) in
          wild pre mid suf clean some_mid eq cut
    ]

    matches : Glob e s → str_match e s ≡ some true
    matches (wild pre mid suf clean some_mid eq cut) =
        rw eq (wild-str_match pre mid suf s clean k some_mid cut)
    matches (plain t u clean full et eu) =
        let fits : length e ≤ length s = rw et (omega (arith, length-append e t)) in
        str_match_fits e s full fits
        ∙ match_ends-NoStar e s clean fits k
        ∙ ap some (rw ((take-eq_iff e s).1 (t, et), (drop-eq_iff e s fits).1 (u, eu)))

match_ends_total :
    (e s : Text)
    → length e ≤ length s
    → length s < size_mod
    → (b : Bool) × (match_ends e s ≡ some b)
match_ends_total e s fits k = elim (split_last e) [
  | inl clean ↦ (ends_agree e e s, match_ends-NoStar e s clean fits k)
  | inr (pre, suf, clean, eq) ↦
      (ends_agree pre suf s, rw eq (match_ends-append pre suf s clean (rw eq at fits) k))
]

str_match_long : (e s : Text) → leb (length e) (length s) ≡ false → str_match e s ≡ some false
unfolding str_match
str_match_long e s h = ground arith

-- For strings shorter than the address space, `strMatch` returns a Boolean: no `substr` in it
-- throws.
pub str_match_total : (e s : Text) → length s < size_mod → (b : Bool) × (str_match e s ≡ some b)
unfolding str_match
str_match_total [] s k = (false, refl)
str_match_total (c ∷ e) s k = elim (Bool-cases (leb (length (c ∷ e)) (length s))) [
  | inr long ↦ (false, str_match_long (c ∷ e) s long)
  | inl fits ↦
      let le : length (c ∷ e) ≤ length s = leb→le _ _ fits in
      let (b, eq) = match_ends_total (c ∷ e) s le k in
      (b, str_match_fits (c ∷ e) s (λ empty. cc) le ∙ eq)
]
