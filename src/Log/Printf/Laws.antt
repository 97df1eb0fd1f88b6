-- ===== src/Log/Printf/Laws.antt =====
-- `vsnprintf` on plain text and on numbers.
use Prim.Native.Nat.{◌/◌, ◌%◌}
use renzoku.Prelude.{
  ℕ, zero, suc, ◌+◌, ◌≡◌, ◌≢◌, refl, ◌∙◌, inl, inr, false, Option, none, some, List, [], ◌∷◌, ◌++◌,
  arith, ◌==◌, Bool-cases, All,
}
use renzoku.Text.{Text}
use renzoku.Log.Printf.{
  Arg, percent, append_to, printf, printf_in, literal, to_base, digits_loop, digit,
}

abbrev pub NoPercent : Text → Type 0
NoPercent = All (λ c. c ≢ percent)

append_to-cons :
    (c : ℕ) (t : Text) (o : Option Text) → append_to (c ∷ []) (append_to t o) ≡ append_to (c ∷ t) o
append_to-cons c t none = refl
append_to-cons c t (some s) = refl

append_to-nil : (o : Option Text) → o ≡ append_to [] o
append_to-nil none = refl
append_to-nil (some s) = refl

printf_in-cons :
    (c : ℕ) (format : Text) (args : List Arg)
    → c ≢ percent
    → printf_in literal (c ∷ format) args ≡ append_to (c ∷ []) (printf_in literal format args)
unfolding printf_in
printf_in-cons c format args h =
    let keep : (c == percent) ≡ false = ground (arith, h) in rw (keep, printf_in)

printf_in-append :
    (t format : Text) (args : List Arg)
    → NoPercent t
    → printf_in literal (t ++ format) args ≡ append_to t (printf_in literal format args)
printf_in-append [] format args h = append_to-nil (printf_in literal format args)
printf_in-append (c ∷ t) format args h =
    printf_in-cons c (t ++ format) args h.0
    ∙ rw (printf_in-append t format args h.1) (append_to-cons c t (printf_in literal format args))

-- What stands in front of a format and has no `%` is printed as it is.
pub printf-append :
    (t format : Text) (args : List Arg)
    → NoPercent t
    → printf (t ++ format) args ≡ append_to t (printf format args)
unfolding printf
printf-append = printf_in-append

digit-NoPercent : (d : ℕ) → digit d ≢ percent
unfolding digit
digit-NoPercent d = ground arith

digits_loop-NoPercent :
    (fuel base n : ℕ) (out : Text) → NoPercent out → NoPercent (digits_loop fuel base n out)
unfolding digits_loop
digits_loop-NoPercent zero base n out h = h
digits_loop-NoPercent (suc fuel) base n out h = elim (Bool-cases (n / base == 0)) [
  | inl last ↦ rw last (digit-NoPercent (n % base), h)
  | inr more ↦ rw more (
      digits_loop-NoPercent fuel base (n / base) (digit (n % base) ∷ out)
        (digit-NoPercent (n % base), h))
]

pub to_base-NoPercent : (base n : ℕ) → NoPercent (to_base base n)
unfolding to_base
to_base-NoPercent base n = digits_loop-NoPercent (n + 1) base n [] tt
