-- ===== src/Config/Memory/Gives.antt =====
-- What the optional results of a plan satisfy.
use renzoku.Prelude.{◌≡◌, refl, Bool, true, false, Option, none, some, if◌then◌else◌}
use renzoku.Util.Command.{◌>>=◌}

-- What an optional result satisfies if there is one.
pub record Gives {A : Type 0} (P : A → Type 0) (o : Option A) : Type 0 where
  pub given : (a : A) → o ≡ some a → P a

pub Gives-some : {A : Type 0} {P : A → Type 0} {a : A} → P a → Gives P (some a)
Gives-some {P} {a} h = record { given = λ b e. (let same : a ≡ b = cc in rw (← same) h) }

pub Gives-none : {A : Type 0} {P : A → Type 0} → Gives {A = A} P none
Gives-none = record { given = λ b e. absurd (cc) }

pub Gives-bind :
    {A B : Type 0} {P : B → Type 0} (o : Option A) {k : A → Option B}
    → ((a : A) → o ≡ some a → Gives P (k a))
    → Gives P (o >>= k)
Gives-bind none h = Gives-none
Gives-bind (some a) h = h a refl

pub Gives-if :
    {A : Type 0} {P : A → Type 0} {m k : Option A} (b : Bool)
    → (b ≡ true → Gives P m)
    → (b ≡ false → Gives P k)
    → Gives P (if b then m else k)
Gives-if true t f = t refl
Gives-if false t f = f refl
