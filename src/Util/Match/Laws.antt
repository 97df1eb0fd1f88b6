-- ===== src/Util/Match/Laws.antt =====
-- The steps of `strMatch`, src/util.cpp, on an expression that is given by its parts.
use renzoku.Prelude.{
  ℕ, ◌+◌, ◌-◌, ◌≤◌, ◌<◌, ◌≡◌, ◌≢◌, refl, ap, ◌∙◌, ◌⊎◌, inl, inr, Bool, true, ◌&&◌, some, [], ◌∷◌,
  ◌++◌, arith, leb, ◌==◌, Bool-cases, length, take, drop, length-append, append_assoc,
  take-append_length, drop-append_length, All, take_all,
}
use renzoku.Text.{Text, npos, size_mod, add_size, sub_size, text_eq, substr, substr_from}
use renzoku.Util.Match.{star, last_asterisk, suffix_of, starts, match_ends}

abbrev pub NoStar : Text → Type 0
NoStar = All (λ c. c ≢ star)

-- Where the last `*` of an expression stands, if it has one.
pub split_last :
    (e : Text) → NoStar e ⊎ ((pre : Text) × (suf : Text) × NoStar suf × (e ≡ pre ++ star ∷ suf))
split_last [] = inl tt
split_last (c ∷ e) = elim (split_last e) [
  | inr (pre, suf, clean, eq) ↦ inr (c ∷ pre, suf, clean, ap (λ r. c ∷ r) eq)
  | inl clean ↦ elim (Bool-cases (c == star)) [
    | inl hit ↦ inr ([], e, clean, ap (λ d. d ∷ e) (ground arith))
    | inr miss ↦ inl ((λ eq. ground arith), clean)
  ]
]

last_asterisk-NoStar : (e : Text) (i a : ℕ) → NoStar e → last_asterisk e i a ≡ a
unfolding last_asterisk
last_asterisk-NoStar [] i a h = refl
last_asterisk-NoStar (c ∷ e) i a h = ground (arith, h.0, last_asterisk-NoStar e (i + 1) a h.1)

last_asterisk-append :
    (pre suf : Text) (i a : ℕ) → NoStar suf → last_asterisk (pre ++ star ∷ suf) i a ≡ i + length pre
unfolding last_asterisk
last_asterisk-append [] suf i a h = last_asterisk-NoStar suf (i + 1) i h ∙ omega arith
last_asterisk-append (c ∷ pre) suf i a h = last_asterisk-append pre suf (i + 1) _ h ∙ omega arith

leb_zero : (n : ℕ) → leb 0 n ≡ true
leb_zero n = ground arith

leb_of_le : (m n : ℕ) → m ≤ n → leb m n ≡ true
leb_of_le m n h = ground arith

-- The two comparisons that decide a match, once the asterisk is known to lie between `pre` and
-- `suf`.
abbrev pub ends_agree : Text → Text → Text → Bool
ends_agree pre suf s =
    text_eq (take (length pre) s) pre && text_eq (drop (length s - length suf) s) suf

suffix_of-append :
    (pre suf : Text)
    → length (pre ++ star ∷ suf) < size_mod
    → suffix_of (pre ++ star ∷ suf) (length pre) ≡ some suf
unfolding suffix_of substr_from
suffix_of-append pre suf h =
    let whole = length-append pre (star ∷ suf) in
    let next : add_size (length pre) 1 ≡ length (pre ++ star ∷ []) =
      omega (arith, length-append pre (star ∷ [])) in
    let fits : leb (length (pre ++ star ∷ [])) (length (pre ++ star ∷ suf)) ≡ true =
      leb_of_le _ _ (omega (arith, length-append pre (star ∷ []))) in
    rw (leb_zero, next, fits)
      (rw (← append_assoc pre (star ∷ []) suf)
        (ap some (drop-append_length (pre ++ star ∷ []) suf)))

suffix_of-npos : (e : Text) → suffix_of e npos ≡ some e
unfolding suffix_of substr_from
suffix_of-npos e = rw (leb_zero (length e)) refl

starts-append :
    (pre suf s : Text)
    → length pre ≤ length s
    → starts (pre ++ star ∷ suf) s (length pre) ≡ some (text_eq (take (length pre) s) pre)
unfolding starts substr
starts-append pre suf s h =
    rw
      (
        leb_zero (length pre),
        leb_zero (length (pre ++ star ∷ suf)),
        take-append_length pre (star ∷ suf),
        leb_zero (length s),
      )
      refl

starts-npos :
    (e s : Text) → length e ≤ npos → starts e s npos ≡ some (text_eq (take (length e) s) e)
unfolding starts substr
starts-npos e s h = rw (leb_zero (length e), take_all npos e h, leb_zero (length s)) refl

substr_from_end :
    (s q : Text)
    → length q ≤ length s
    → length s < size_mod
    → substr_from s (sub_size (length s) (length q)) ≡ some (drop (length s - length q) s)
unfolding substr_from
substr_from_end s q h k =
    let back : sub_size (length s) (length q) ≡ length s - length q = omega arith in
    rw (back, leb_of_le (length s - length q) (length s) (omega arith)) refl

pub match_ends-append :
    (pre suf s : Text)
    → NoStar suf
    → length (pre ++ star ∷ suf) ≤ length s
    → length s < size_mod
    → match_ends (pre ++ star ∷ suf) s ≡ some (ends_agree pre suf s)
unfolding match_ends
match_ends-append pre suf s clean h k =
    let whole = length-append pre (star ∷ suf) in
    let at : last_asterisk (pre ++ star ∷ suf) 0 npos ≡ length pre =
      last_asterisk-append pre suf 0 npos clean ∙ omega arith in
    rw
      (
        at,
        suffix_of-append pre suf (omega arith),
        substr_from_end s suf (omega arith) k,
        starts-append pre suf s (omega arith),
      )
      refl

pub match_ends-NoStar :
    (e s : Text)
    → NoStar e
    → length e ≤ length s
    → length s < size_mod
    → match_ends e s ≡ some (ends_agree e e s)
unfolding match_ends
match_ends-NoStar e s clean h k =
    rw
      (
        last_asterisk-NoStar e 0 npos clean,
        suffix_of-npos e,
        substr_from_end s e h k,
        starts-npos e s (omega arith),
      )
      refl
