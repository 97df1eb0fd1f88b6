-- ===== src/Config/Order/Parts.antt =====
-- Two sections of a config file that work on different parts of a plan, for `plan_of`.
use renzoku.Prelude.{◌≡◌, refl, ap, Option, none, some}
use renzoku.Util.Command.{◌>>=◌}
use renzoku.Config.Plan.{Plan}

-- A part of a plan that can be read and written.
pub record Part (S : Type 0) : Type 0 where
  pub get : Plan → S
  pub put : S → Plan → Plan

-- A section that works on a part alone.
abbrev pub on_part : {S : Type 0} → Part S → (S → Option S) → Plan → Option Plan
on_part part g plan = g (part.get plan) >>= λ s. some (part.put s plan)

pub record AreApart {S T : Type 0} (a : Part S) (b : Part T) : Type 0 where
  pub left : (s : S) (plan : Plan) → b.get (a.put s plan) ≡ b.get plan
  pub right : (t : T) (plan : Plan) → a.get (b.put t plan) ≡ a.get plan
  pub both : (s : S) (t : T) (plan : Plan) → b.put t (a.put s plan) ≡ a.put s (b.put t plan)

pub on_part-swap :
    {S T : Type 0} (a : Part S) (b : Part T) (g : S → Option S) (h : T → Option T) (plan : Plan)
    → AreApart a b
    → (on_part a g plan >>= on_part b h) ≡ (on_part b h plan >>= on_part a g)
on_part-swap a b g h plan apart = swap (g (a.get plan)) (h (b.get plan)) refl refl
  where
    swap :
        (o : Option _) (q : Option _)
        → g (a.get plan) ≡ o
        → h (b.get plan) ≡ q
        → (on_part a g plan >>= on_part b h) ≡ (on_part b h plan >>= on_part a g)
    swap none none e f = rw (e, f) refl
    swap none (some t) e f = rw (e, f, apart.right t plan, e) refl
    swap (some s) none e f = rw (e, f, apart.left s plan, f) refl
    swap (some s) (some t) e f =
        rw (e, f, apart.left s plan, apart.right t plan, e, f) (ap some (apart.both s t plan))
