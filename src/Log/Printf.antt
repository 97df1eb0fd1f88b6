-- ===== src/Log/Printf.antt =====
-- The conversions of `vsnprintf` that the program's formats use: %s, %d, %x, %ju and %%.
pub mod Laws
use Prim.Native.Nat.{◌/◌}
use renzoku.Prelude.{
  ℕ, zero, suc, ℤ, pos, negsuc, Bool, true, false, ◌+◌, ◌-◌, ◌%◌, Option, none, some, List, [], ◌∷◌,
  ◌++◌, ltb, ◌==◌, if◌then◌else◌,
}
use renzoku.Text.{Text, c_str}

pub data Arg : Type 0 where
  string : Text → Arg
  signed : ℤ → Arg
  unsigned : ℕ → Arg

digit : ℕ → ℕ
digit d = if ltb d 10 then b'0' + d else b'a' + d - 10

digits_loop : ℕ → ℕ → ℕ → Text → Text
digits_loop zero base n out = out
digits_loop (suc fuel) base n out =
    let more = digits_loop fuel base (n / base) (digit (n % base) ∷ out) in
    if n / base == 0 then digit (n % base) ∷ out else more

-- A number in a base, with a round of fuel for each unit: it falls in every round.
pub to_base : ℕ → ℕ → Text
to_base base n = digits_loop (n + 1) base n []

pub to_decimal : ℤ → Text
to_decimal (pos n) = to_base 10 n
to_decimal (negsuc n) = b'-' ∷ to_base 10 (n + 1)

abbrev pub percent : ℕ
percent = b'%'

-- What a conversion prints and the arguments that it leaves; `none` where they do not fit.
convert : ℕ → List Arg → Option (Text × List Arg)
convert c [] = if c == b'%' then some (b'%' ∷ [], []) else none
convert c (string t ∷ args) =
    if c == b'%'
    then some (b'%' ∷ [], string t ∷ args)
    else if c == b's'
    then some (c_str t, args)
    else none
convert c (signed n ∷ args) =
    if c == b'%'
    then some (b'%' ∷ [], signed n ∷ args)
    else if c == b'd'
    then some (to_decimal n, args)
    else none
convert c (unsigned n ∷ args) =
    if c == b'%'
    then some (b'%' ∷ [], unsigned n ∷ args)
    else if c == b'x'
    then some (to_base 16 n, args)
    else if c == b'u'
    then some (to_base 10 n, args)
    else none

-- Where the scan of a format stands: in plain text, behind a `%`, and behind `%j`.
pub data Mode : Type 0 where
  literal conversion intmax : Mode

abbrev pub append_to : Text → Option Text → Option Text
append_to t none = none
append_to t (some s) = some (t ++ s)

abbrev continue : Option (Text × List Arg) → (List Arg → Option Text) → Option Text
continue none rest = none
continue (some (t, args)) rest = append_to t (rest args)

unfoldable pub printf_in : Mode → Text → List Arg → Option Text
unfolding convert
printf_in literal [] args = some []
printf_in literal (c ∷ format) args = elim (c == percent) [
  | true ↦ printf_in conversion format args
  | false ↦ append_to (c ∷ []) (printf_in literal format args)
]
printf_in conversion [] args = none
printf_in conversion (c ∷ format) args = elim (c == b'j') [
  | true ↦ printf_in intmax format args
  | false ↦ continue (convert c args) (λ left. printf_in literal format left)
]
printf_in intmax [] args = none
printf_in intmax (c ∷ format) args = elim (c == b'u') [
  | true ↦ continue (convert c args) (λ left. printf_in literal format left)
  | false ↦ none
]

unfoldable pub printf : Text → List Arg → Option Text
unfolding printf_in
printf = printf_in literal
