-- ===== src/Config/Memory/Addresses.antt =====
-- The addresses of the strings of an array.
use renzoku.Prelude.{ℕ, ◌+◌, ◌≤◌, ◌<◌, List, [], ◌∷◌, arith, length, All, All-map}
use renzoku.Text.{Text}
use renzoku.World.{Ptr}
use renzoku.Procman.Apart.{NotIn, AreDistinct}
use renzoku.Util.Command.Memory.{addresses}

pub addresses-from : (n : ℕ) (ts : List Text) → All (λ p. n ≤ p) (addresses n ts)
addresses-from n [] = tt
addresses-from n (t ∷ ts) = (
  omega arith,
  All-map (λ p h. omega (arith, h)) (addresses (n + 1) ts) (addresses-from (n + 1) ts),
)

pub addresses-below : (n : ℕ) (ts : List Text) → All (λ p. p < n + length ts) (addresses n ts)
addresses-below n [] = tt
addresses-below n (t ∷ ts) = (
  omega arith,
  All-map (λ p h. omega (arith, h)) (addresses (n + 1) ts) (addresses-below (n + 1) ts),
)

-- What is on one side of `n` is none of what is on the other.
NotIn-above : (n q : ℕ) (ps : List Ptr) → q < n → All (λ p. n ≤ p) ps → NotIn q ps
NotIn-above n q ps l = All-map (λ p h e. omega (arith, l, h, e)) ps

NotIn-under : (n q : ℕ) (ps : List Ptr) → n ≤ q → All (λ p. p < n) ps → NotIn q ps
NotIn-under n q ps l = All-map (λ p h e. omega (arith, l, h, e)) ps

pub All-NotIn-above :
    (n : ℕ) (ps qs : List Ptr)
    → All (λ p. p < n) ps
    → All (λ p. n ≤ p) qs
    → All (λ p. NotIn p qs) ps
All-NotIn-above n ps qs h above = All-map (λ p l. NotIn-above n p qs l above) ps h

pub All-NotIn-under :
    (n : ℕ) (ps qs : List Ptr)
    → All (λ p. n ≤ p) ps
    → All (λ p. p < n) qs
    → All (λ p. NotIn p qs) ps
All-NotIn-under n ps qs h under = All-map (λ p l. NotIn-under n p qs l under) ps h

pub addresses-AreDistinct : (n : ℕ) (ts : List Text) → AreDistinct (addresses n ts)
addresses-AreDistinct n [] = tt
addresses-AreDistinct n (t ∷ ts) = (
  NotIn-above (n + 1) n (addresses (n + 1) ts) (omega arith) (addresses-from (n + 1) ts),
  addresses-AreDistinct (n + 1) ts,
)
