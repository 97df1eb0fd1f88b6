-- ===== src/Config/Memory/Owned.antt =====
-- The blocks that belong to the commands of a Config, behind any assignments.
use renzoku.Prelude.{
  ℕ, suc, ◌+◌, ◌≤◌, ◌<◌, ◌≡◌, refl, sym, ap, ◌∙◌, Option, none, some, List, [], ◌∷◌, ◌++◌, arith,
  get_elem?, length, map, length-append, append_assoc, All, All-map, All-append,
}
use renzoku.Text.{Text}
use renzoku.World.{Ptr}
use renzoku.Procman.Apart.{NotIn}
use renzoku.Config.Holds.{get_elem?-append}
use renzoku.Util.Command.Memory.{Block, string, array, Memory, addresses, new_array}
use renzoku.Config.Memory.Last.{last, same-≡, same_self}
use renzoku.Config.Memory.Addresses.{
  addresses-from, addresses-below, All-NotIn-above, All-NotIn-under,
}
use renzoku.Config.Memory.{put, Member, same, Commands, assign, assign_all}

-- The strings lie one behind another from `n` on.
abbrev pub StringsAt : Memory → ℕ → List Text → Type 0
StringsAt m n [] = Unit
StringsAt m n (t ∷ ts) = (get_elem? m n ≡ some (some (string t))) × StringsAt m (n + 1) ts

-- The pointer is null and there is no command, or it points to the array of the command's words.
abbrev pub Holds : Memory → Option Ptr → Option (List Text) → Type 0
Holds m none none = Unit
Holds m (some p) (some command) =
    (get_elem? m p ≡ some (some (array (addresses (p + 1) command)))) × StringsAt m (p + 1) command
Holds m _ _ = ⊥

-- The blocks of a command, in the order in which they are deleted.
abbrev pub blocks : Option Ptr → Option (List Text) → List Ptr
blocks (some p) (some command) = addresses (p + 1) command ++ (p ∷ [])
blocks _ _ = []

-- Each member holds its command, in blocks that are no other member's.
pub record Owned (c : Commands) (m : Memory) (t : Member → Option (List Text)) : Type 0 where
  pub holds : (s : Member) → Holds m (c s) (t s)
  pub below : (s : Member) → All (λ p. p < length m) (blocks (c s) (t s))
  pub apart :
      (r s : Member)
      → same r s ≡ none
      → All (λ p. NotIn p (blocks (c s) (t s))) (blocks (c r) (t r))

-- The blocks of a new array are the next ones.
new-from : (n : ℕ) (ts : List Text) → All (λ p. n ≤ p) (blocks (some n) (some ts))
new-from n ts =
    All-append _ (addresses (n + 1) ts) (n ∷ [])
      (All-map (λ p h. omega (arith, h)) (addresses (n + 1) ts) (addresses-from (n + 1) ts))
      (omega arith, tt)

new-below :
    (n : ℕ) (ts : List Text) → All (λ p. p < n + suc (length ts)) (blocks (some n) (some ts))
new-below n ts =
    All-append _ (addresses (n + 1) ts) (n ∷ [])
      (All-map (λ p h. omega (arith, h)) (addresses (n + 1) ts) (addresses-below (n + 1) ts))
      (omega arith, tt)

StringsAt-append :
    (m more : Memory) (n : ℕ) (ts : List Text) → StringsAt m n ts → StringsAt (m ++ more) n ts
StringsAt-append m more n [] h = tt
StringsAt-append m more n (t ∷ ts) h =
    (get_elem?-append m more n h.0, StringsAt-append m more (n + 1) ts h.1)

Holds-append :
    (m more : Memory) (o : Option Ptr) (t : Option (List Text))
    → Holds m o t
    → Holds (m ++ more) o t
Holds-append m more none none h = tt
Holds-append m more none (some command) h = absurd h
Holds-append m more (some p) none h = absurd h
Holds-append m more (some p) (some command) h =
    (get_elem?-append m more p h.0, StringsAt-append m more (p + 1) command h.1)

get_elem?-length :
    (m : Memory) (b : Option Block) (more : Memory) → get_elem? (m ++ b ∷ more) (length m) ≡ some b
get_elem?-length [] b more = refl
get_elem?-length (x ∷ m) b more = get_elem?-length m b more

StringsAt-new :
    (whole : Memory) (n : ℕ) (m : Memory) (ts : List Text)
    → whole ≡ m ++ map (λ t. some (string t)) ts
    → n ≡ length m
    → StringsAt whole n ts
StringsAt-new whole n m [] e l = tt
StringsAt-new whole n m (t ∷ ts) e l =
    let b = some (string t) in
    let more = map (λ t. some (string t)) ts in
    (
      rw (e, l) (get_elem?-length m b more),
      StringsAt-new whole (n + 1) (m ++ (b ∷ [])) ts (e ∙ sym (append_assoc m (b ∷ []) more))
          (omega (arith, l, length-append m (b ∷ []))),
    )

Holds-new :
    (command : List Text) (m : Memory)
    → Holds (new_array command m).1 (some (length m)) (some command)
unfolding new_array
Holds-new command m =
    let b = some (array (addresses (length m + 1) command)) in
    let more = map (λ t. some (string t)) command in
    (
      get_elem?-length m b more,
      StringsAt-new _ (length m + 1) (m ++ (b ∷ [])) command (sym (append_assoc m (b ∷ []) more))
          (omega (arith, length-append m (b ∷ []))),
    )

length-strings : (ts : List Text) → length (map (λ t. some (string t)) ts) ≡ length ts
length-strings [] = refl
length-strings (t ∷ ts) = omega (arith, length-strings ts)

length-new_array :
    (command : List Text) (m : Memory)
    → length (new_array command m).1 ≡ length m + suc (length command)
unfolding new_array
length-new_array command m =
    length-append m
      (some (array (addresses (length m + 1) command)) ∷ map (λ t. some (string t)) command)
    ∙ ap (λ n. length m + suc n) (length-strings command)

-- An assignment hands a member new blocks, and leaves those of the others.
assign-Owned :
    (r : Member) (command : List Text) (c : Commands) (m : Memory) (t : Member → Option (List Text))
    → Owned c m t
    → Owned
        (assign r command (c, m)).0
        (assign r command (c, m)).1
        λ s. put (same r s) (t s) (some command)
unfolding assign new_array
assign-Owned r command c m t h = record {
  holds = λ s. held s (same r s);
  below = λ s. under s (same r s);
  apart = λ s s' other. split s s' other (same r s) refl (same r s') refl;
}
  where
    n : ℕ
    n = length m

    next : Memory
    next = (new_array command m).1

    held :
        (s : Member) (o : Option (Unit {0}))
        → Holds next (put o (c s) (some n)) (put o (t s) (some command))
    held s none = Holds-append m _ (c s) (t s) (h.holds s)
    held s (some u) = Holds-new command m

    under :
        (s : Member) (o : Option (Unit {0}))
        → All (λ p. p < length next) (blocks (put o (c s) (some n)) (put o (t s) (some command)))
    under s none =
        All-map (λ p l. omega (arith, l, length-new_array command m)) (blocks (c s) (t s))
          (h.below s)
    under s (some u) =
        All-map (λ p l. omega (arith, l, length-new_array command m))
          (blocks (some n) (some command)) (new-below n command)

    split :
        (s s' : Member)
        → same s s' ≡ none
        → (o : Option (Unit {0})) → same r s ≡ o
        → (o' : Option (Unit {0})) → same r s' ≡ o'
        → All
            (λ p. NotIn p (blocks (put o' (c s') (some n)) (put o' (t s') (some command))))
            (blocks (put o (c s) (some n)) (put o (t s) (some command)))
    split s s' other none e none e' = h.apart s s' other
    split s s' other none e (some u) e' =
        All-NotIn-above n (blocks (c s) (t s)) (blocks (some n) (some command)) (h.below s)
          (new-from n command)
    split s s' other (some u) e none e' =
        All-NotIn-under n (blocks (some n) (some command)) (blocks (c s') (t s'))
          (new-from n command) (h.below s')
    split s s' other (some u) e (some u') e' =
        absurd (same_self s (ap (same s) (sym (same-≡ r s e) ∙ same-≡ r s' e') ∙ other))

pub assign_all-Owned :
    (a : List (Member × List Text)) (c : Commands) (m : Memory) (t : Member → Option (List Text))
    → Owned c m t
    → Owned (assign_all a (c, m)).0 (assign_all a (c, m)).1 λ s. last a (t s) s
unfolding assign_all
assign_all-Owned [] c m t h = h
assign_all-Owned ((r, command) ∷ a) c m t h =
    assign_all-Owned a _ _ _ (assign-Owned r command c m t h)
