-- ===== src/OldWatcher/Suffix.antt =====
-- `ends_with` of oldwatcher.c, and `strMatch` of src/util.cpp, which has taken its place.
use renzoku.Prelude.{
  ℕ, zero, suc, length-drop, ◌-◌, ◌<◌, ◌≤◌, ◌≡◌, ◌≢◌, refl, sym, ap, ◌∙◌, ◌↔◌, Bool-cases, true,
  false, some, inl, inr, [], ◌∷◌, ◌++◌, arith, leb, ltb, ltb→lt, lt→ltb, leb→le, length,
  length-append, drop, All,
}
use renzoku.Text.{Text, text_eq, null_byte, size_mod}
use renzoku.Text.Laws.{c_str_lem, drop-eq_iff}
use renzoku.Util.Match.{star, str_match}
use renzoku.Util.Match.Laws.{NoStar}
use renzoku.Util.Match.Glob.{Glob, wild, plain, str_match_iff}
use renzoku.OldWatcher.{strncmp_is_zero, ends_with}

-- A string of C: no NUL before its end.
abbrev pub IsString : Text → Type 0
IsString = All (λ c. c ≢ null_byte)

strncmp-text_eq :
    (s t : Text) → IsString s → length s ≡ length t → strncmp_is_zero s t (length t) ≡ text_eq s t
unfolding strncmp_is_zero text_eq
strncmp-text_eq [] [] h e = refl
strncmp-text_eq [] (d ∷ t) h e = absurd (omega (arith, e))
strncmp-text_eq (c ∷ s) [] h e = absurd (omega (arith, e))
strncmp-text_eq (c ∷ s) (d ∷ t) h e =
    let ih = strncmp-text_eq s t h.1 (omega (arith, e)) in let other = h.0 in ground (arith, ih)

IsString-drop : (n : ℕ) (s : Text) → IsString s → IsString (drop n s)
IsString-drop zero s h = h
IsString-drop (suc n) [] h = h
IsString-drop (suc n) (c ∷ s) h = IsString-drop n s h.1

ends_with-fits :
    (s t : Text)
    → IsString s
    → IsString t
    → length t ≤ length s
    → ends_with (some s) (some t) ≡ text_eq (drop (length s - length t) s) t
unfolding ends_with
ends_with-fits s t hs ht le =
    rw (c_str_lem s hs, c_str_lem t ht)
      (elim (Bool-cases (ltb (length s) (length t))) [
        | inl e ↦ absurd (omega (arith, le, ltb→lt _ _ e))
        | inr e ↦ rw e (
            strncmp-text_eq (drop (length s - length t) s) t
              (IsString-drop (length s - length t) s hs)
              (length-drop (length s - length t) s ∙ omega (arith, le)))
      ])

ends_with-short :
    (s t : Text)
    → IsString s
    → IsString t
    → length s < length t
    → ends_with (some s) (some t) ≡ false
unfolding ends_with
ends_with-short s t hs ht lt =
    rw (c_str_lem s hs, c_str_lem t ht, lt→ltb (length s) (length t) lt) refl

-- For strings without NUL `ends_with` is true exactly where the first is some text and then the
-- second.
pub ends_with_iff :
    (s t : Text)
    → IsString s
    → IsString t
    → (ends_with (some s) (some t) ≡ true) ↔ ((before : Text) × (s ≡ before ++ t))
ends_with_iff s t hs ht = elim (Bool-cases (leb (length t) (length s))) [
  | inl e ↦
      let le = leb→le (length t) (length s) e in
      rw (ends_with-fits s t hs ht le) (drop-eq_iff t s le)
  | inr e ↦
      let less : length s < length t = ground arith in
      (
        λ h. let no = ends_with-short s t hs ht less in absurd (cc),
        λ (before, eq). absurd (omega (arith, less, ap length eq, length-append before t)),
      )
]

NoStar-wild :
    (pre suf rest : Text)
    → NoStar rest
    → star ∷ rest ≡ pre ++ star ∷ suf
    → (pre ≡ []) × (rest ≡ suf)
NoStar-wild [] suf rest clean e = (refl, cc)
NoStar-wild (c ∷ pre) suf rest clean e = absurd (no_star pre suf rest clean (cc))
  where
    no_star : (pre suf rest : Text) → NoStar rest → rest ≡ pre ++ star ∷ suf → ⊥
    no_star [] suf [] clean e = cc
    no_star [] suf (d ∷ rest) clean e = clean.0 (cc)
    no_star (c ∷ pre) suf [] clean e = cc
    no_star (c ∷ pre) suf (d ∷ rest) clean e = no_star pre suf rest clean.1 (cc)

-- The filter that is an asterisk before a suffix without asterisks is, for `strMatch` on strings
-- without NUL that are shorter than 2^64, the test of the prototype for that suffix, with the
-- suffix alone as the one exception: there must be a byte before it.
pub str_match-ends_with :
    (s t : Text)
    → IsString s
    → IsString t
    → NoStar t
    → length s < size_mod
    → (str_match (star ∷ t) s ≡ some true) ↔ ((ends_with (some s) (some t) ≡ true) × (s ≢ t))
str_match-ends_with s t hs ht clean short = (ends, matches)
  where
    longer : (mid : Text) → mid ≢ [] → mid ++ t ≢ t
    longer [] h e = h refl
    longer (c ∷ mid) h e = omega (arith, ap length e, length-append mid t)

    ended : Glob (star ∷ t) s → (ends_with (some s) (some t) ≡ true) × (s ≢ t)
    ended (wild pre mid suf clean' some_mid eq cut) =
        let (e, f) = NoStar-wild pre suf t clean eq in
        let whole : s ≡ mid ++ t = (rw (e, ← f) at cut) in
        ((ends_with_iff s t hs ht).1 (mid, whole), λ g. longer mid some_mid (sym whole ∙ g))
    ended (plain u v clean' h e f) = absurd (clean'.0 refl)

    ends : str_match (star ∷ t) s ≡ some true → (ends_with (some s) (some t) ≡ true) × (s ≢ t)
    ends h = ended ((str_match_iff (star ∷ t) s short).0 h)

    matches : (ends_with (some s) (some t) ≡ true) × (s ≢ t) → str_match (star ∷ t) s ≡ some true
    matches (h, other) =
        let (before, eq) = (ends_with_iff s t hs ht).0 h in
        (str_match_iff (star ∷ t) s short).1
          (wild [] before t clean (λ e. other (rw e at eq)) refl eq)
