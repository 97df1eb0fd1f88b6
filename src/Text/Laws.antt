-- ===== src/Text/Laws.antt =====
-- Laws of the operations on strings.
use renzoku.Prelude.{
  ◌-◌, ◌≤◌, ◌≡◌, ◌≢◌, refl, ap, sym, ◌∙◌, ◌↔◌, true, [], ◌∷◌, ◌++◌, arith, length, take, drop,
  length-append, take-append-drop, take-append_length, drop-append_length, All,
}
use renzoku.Text.{Text, text_eq, c_str, null_byte}

pub text_eq_refl : (s : Text) → text_eq s s ≡ true
unfolding text_eq
text_eq_refl [] = refl
text_eq_refl (c ∷ s) = ground (arith, text_eq_refl s)

pub text_eq_iff : (s t : Text) → (text_eq s t ≡ true) ↔ (s ≡ t)
unfolding text_eq
text_eq_iff s t = (sound s t, λ e. ap (text_eq s) (sym e) ∙ text_eq_refl s)
  where
    sound : (s t : Text) → text_eq s t ≡ true → s ≡ t
    sound [] [] h = refl
    sound [] (d ∷ t) h = cc
    sound (c ∷ s) [] h = cc
    sound (c ∷ s) (d ∷ t) h = ground (arith, sound s t)

-- A string of bytes other than NUL is read whole.
pub c_str_lem : (s : Text) → All (λ c. c ≢ null_byte) s → c_str s ≡ s
unfolding c_str
c_str_lem [] h = refl
c_str_lem (c ∷ s) h = ground (arith, c_str_lem s h.1)

-- A slice at the start of a string equals `p` exactly where the string begins with `p`.
pub take-eq_iff :
    (p s : Text) → (text_eq (take (length p) s) p ≡ true) ↔ ((t : Text) × (s ≡ p ++ t))
take-eq_iff p s = (
  λ h. (
    drop (length p) s,
    sym (take-append-drop (length p) s)
        ∙ ap (λ q. q ++ drop (length p) s) ((text_eq_iff (take (length p) s) p).0 h),
  ),
  λ (t, e). rw (e, take-append_length) (text_eq_refl p),
)

-- A slice at the end of a string equals `q` exactly where the string ends with `q`.
pub drop-eq_iff :
    (q s : Text)
    → length q ≤ length s
    → (text_eq (drop (length s - length q) s) q ≡ true) ↔ ((t : Text) × (s ≡ t ++ q))
drop-eq_iff q s fits = (
  λ h. (
    take (length s - length q) s,
    sym (take-append-drop (length s - length q) s)
        ∙ ap (λ r. take (length s - length q) s ++ r) ((text_eq_iff _ q).0 h),
  ),
  λ (t, e). ends t e,
)
  where
    ends : (t : Text) → s ≡ t ++ q → text_eq (drop (length s - length q) s) q ≡ true
    ends t e =
        let cut : length s - length q ≡ length t = rw e (omega (arith, length-append t q)) in
        rw (cut, e, drop-append_length) (text_eq_refl q)

-- Where two cuts of a string are known, the longer front begins with the shorter one.
pub append_overlap :
    (xs ys zs ws : Text) → xs ++ ys ≡ zs ++ ws → length xs ≤ length zs → (m : Text) × (zs ≡ xs ++ m)
append_overlap [] ys zs ws e h = (zs, refl)
append_overlap (x ∷ xs) ys [] ws e h = absurd (omega arith)
append_overlap (x ∷ xs) ys (z ∷ zs) ws e h =
    let (m, eq) = append_overlap xs ys zs ws (cc) (omega arith) in (m, cc)
