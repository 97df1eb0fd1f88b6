-- ===== src/Config/Memory/Last.antt =====
-- The command that a member of a Config was assigned last.
use renzoku.Prelude.{◌≡◌, ◌≢◌, refl, ◌∙◌, Option, none, some, List, [], ◌∷◌, ◌++◌, map}
use renzoku.Text.{Text}
use renzoku.Config.Memory.{Member, compile, test, program, same, put}

-- The command that a member was assigned last.
abbrev pub last : List (Member × List Text) → Option (List Text) → Member → Option (List Text)
last [] t s = t
last ((r, command) ∷ rest) t s = last rest (put (same r s) t (some command)) s

-- The command of a list that is assigned last.
abbrev pub newest : List (List Text) → Option (List Text) → Option (List Text)
newest [] t = t
newest (command ∷ rest) t = newest rest (some command)

pub newest-append :
    (a b : List (List Text)) (t : Option (List Text)) → newest b (newest a t) ≡ newest (a ++ b) t
newest-append [] b t = refl
newest-append (command ∷ a) b t = newest-append a b (some command)

pub every : (P : Member → Type 0) → P compile → P test → P program → (s : Member) → P s
every P a b c compile = a
every P a b c test = b
every P a b c program = c

put_twice :
    {A : Type 0} (o : Option (Unit {0})) (t u : A) (f : A → A)
    → put o t (f u) ≡ put o (put o t u) (f (put o t u))
put_twice none t u f = refl
put_twice (some v) t u f = refl

pub last-map :
    (r : Member) (a : List (List Text)) (t : Option (List Text)) (s : Member)
    → put (same r s) t (newest a t) ≡ last (map (λ command. (r, command)) a) t s
last-map r [] t s = split (same r s)
  where
    split : (o : Option (Unit {0})) → put o t t ≡ t
    split none = refl
    split (some u) = refl
last-map r (command ∷ a) t s =
    put_twice (same r s) t (some command) (newest a)
    ∙ last-map r a (put (same r s) t (some command)) s

pub last-append :
    (a b : List (Member × List Text)) (t : Option (List Text)) (s : Member)
    → last b (last a t s) s ≡ last (a ++ b) t s
last-append [] b t s = refl
last-append ((r, command) ∷ a) b t s = last-append a b _ s

pub same-≡ : (r s : Member) {u : Unit {0}} → same r s ≡ some u → r ≡ s
same-≡ compile compile e = refl
same-≡ test test e = refl
same-≡ program program e = refl
same-≡ compile test e = absurd (cc)
same-≡ compile program e = absurd (cc)
same-≡ test compile e = absurd (cc)
same-≡ test program e = absurd (cc)
same-≡ program compile e = absurd (cc)
same-≡ program test e = absurd (cc)

pub same_self : (s : Member) → same s s ≢ none
same_self compile e = absurd (cc)
same_self test e = absurd (cc)
same_self program e = absurd (cc)
