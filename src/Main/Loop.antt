-- ===== src/Main/Loop.antt =====
-- The loop of `main` in src/main.cpp until the handler of src/signals.cpp has run.
use renzoku.Prelude.{
  ℕ, zero, suc, ◌≡◌, refl, ◌∙◌, sym, Bool, true, false, List, ◌∷◌, ◌++◌, replicate,
}
use renzoku.World.{Os, World, Run, done, stopped, M, ◌>>=◌, ◌>>◌, pure, and_then}
use renzoku.Watcher.{Watcher, listen}
use renzoku.Main.{running, stop_program, signal_catch_int, interrupt, listen_rounds, listen_while}

pub and_then_assoc :
    {os : Os} {A B C : Type 0} (r : Run os A) (k : A → M os B) (l : B → M os C)
    → and_then (and_then r k) l ≡ and_then r (λ a w. and_then (k a w) l)
and_then_assoc (done a w) k l = refl
and_then_assoc (stopped s w) k l = refl

pub and_then-ap :
    {os : Os} {A B : Type 0} (r : Run os A) (k l : A → M os B)
    → ((a : A) (w : World os) → k a w ≡ l a w)
    → and_then r k ≡ and_then r l
and_then-ap (done a w) k l h = h a w
and_then-ap (stopped s w) k l h = refl

module _ (os : Os) where
  -- The rounds with a last one in which SIGINT arrives, and the handler.
  abbrev pub rounds_then_handler : ℕ → Watcher → M os Watcher
  rounds_then_handler k x = do
    last ← listen_rounds os (suc k) x
    signal_catch_int os running
    pure last

  last_round :
      (arrivals : List Bool) (x : Watcher) (w : World os)
      → (signal_catch_int os running >>= λ after. listen_while os arrivals after x) w
        ≡ (signal_catch_int os running >> pure x) w
  unfolding signal_catch_int listen_while stop_program
  last_round arrivals x w = refl

  -- The loop ends with the round in which the first SIGINT arrives, however many rounds come
  -- before it and whatever arrives later: it is the rounds up to that one, and then the handler.
  pub listen_while-rounds :
      (k : ℕ) (arrivals : List Bool) (x : Watcher) (w : World os)
      → listen_while os (replicate k false ++ (true ∷ arrivals)) running x w
        ≡ rounds_then_handler k x w
  unfolding listen_while listen_rounds interrupt
  listen_while-rounds zero arrivals x w =
      and_then-ap (listen os x w) _ _ (λ next u. last_round arrivals next u)
      ∙ sym (and_then_assoc (listen os x w) _ _)
  listen_while-rounds (suc k) arrivals x w =
      and_then-ap (listen os x w) _ _ (λ next u. listen_while-rounds k arrivals next u)
      ∙ sym (and_then_assoc (listen os x w) _ _)
