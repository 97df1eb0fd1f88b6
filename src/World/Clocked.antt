-- ===== src/World/Clocked.antt =====
-- A clock that does not go back, and calls that take some time of it.
use renzoku.Prelude.{
  ℕ, ℤ, ◌+◌, ◌≤◌, ◌≡◌, refl, arith, Bool, true, false, if◌then◌else◌, Option, none, some, get_elem?,
}
use renzoku.World.{
  Os, Process, Ptr, Event, World, Run, done, stopped, Stop, M, ◌>>=◌, ◌>>◌, pure, and_then, emit,
  load, store, deref, system_call,
}

-- `time` reads a clock that no call moves back, and `mktime` of a time with some seconds added is
-- as many seconds later.
pub record IsClock (os : Os) (now : os.State → ℕ) : Type 0 where
  pub reads : (s : os.State) → (os.time s).0 ≡ now s
  pub adds : (t n : ℕ) → os.mktime_after t n ≡ t + n
  pub time : (s : os.State) → now s ≤ now (os.time s).1
  pub fork : (s : os.State) → now s ≤ now (os.fork s).1
  pub waitpid : (s : os.State) (pid : ℤ) (no_hang : Bool) → now s ≤ now (os.waitpid s pid no_hang).1
  pub kill : (s : os.State) (pid : ℤ) (signal : ℕ) → now s ≤ now (os.kill s pid signal).1
  pub select : (s : os.State) (fd : ℤ) → now s ≤ now (os.select s fd).1
  pub read : (s : os.State) (fd : ℤ) → now s ≤ now (os.read s fd).1

-- The world in which a run ends.
abbrev pub final : {os : Os} {A : Type 0} → Run os A → World os
final (done a w) = w
final (stopped s w) = w

-- The clock is not before its old time when the call ends, however it ends.
pub record Clocked {os : Os} (now : os.State → ℕ) {A : Type 0} (m : M os A) : Type 0 where
  pub apply : (w : World os) → now w.system ≤ now (final (m w)).system

module _ {os : Os} (now : os.State → ℕ) where
  later :
      {A B : Type 0} (r : Run os A) (k : A → M os B)
      → ((a : A) → Clocked now (k a))
      → now (final r).system ≤ now (final (and_then r k)).system
  later (done a w) k h = (h a).apply w
  later (stopped s w) k h = omega arith

  pub Clocked-bind :
      {A B : Type 0} {m : M os A} {k : A → M os B}
      → Clocked now m
      → ((a : A) → Clocked now (k a))
      → Clocked now (m >>= k)
  Clocked-bind {m} {k} t h = record { apply = λ w. omega (arith, t.apply w, later (m w) k h) }

  pub Clocked-then :
      {A B : Type 0} {m : M os A} {k : M os B}
      → Clocked now m
      → Clocked now k
      → Clocked now (m >> k)
  Clocked-then {m} {k} t h = record {
    apply = λ w. omega (arith, t.apply w, later (m w) (λ _. k) (λ _. h));
  }

  pub Clocked-pure : {A : Type 0} (a : A) → Clocked now (pure {os = os} a)
  Clocked-pure a = record { apply = λ w. omega arith }

  pub Clocked-stopped : {A : Type 0} (s : Stop) → Clocked {os = os} now {A = A} (λ w. stopped s w)
  Clocked-stopped s = record { apply = λ w. omega arith }

  pub Clocked-if :
      {A : Type 0} {m k : M os A} (b : Bool)
      → Clocked now m
      → Clocked now k
      → Clocked now (if b then m else k)
  Clocked-if true t h = t
  Clocked-if false t h = h

  pub Clocked-emit : (e : Event) → Clocked now (emit {os = os} e)
  Clocked-emit e = record { apply = λ w. omega arith }

  pub Clocked-system :
      {A : Type 0} (f : os.State → A × os.State)
      → ((s : os.State) → now s ≤ now (f s).1)
      → Clocked now (system_call {os = os} f)
  unfolding system_call
  Clocked-system f h = record { apply = λ w. h w.system }

  pub Clocked-store : (p : Ptr) (x : Process) → Clocked now (store {os = os} p x)
  unfolding store
  Clocked-store p x = record { apply = λ w. omega arith }

  pub Clocked-deref : (o : Option Ptr) → Clocked now (deref {os = os} o)
  Clocked-deref none = Clocked-stopped _
  Clocked-deref (some p) = Clocked-pure p

  pub Clocked-load : (p : Ptr) → Clocked now (load {os = os} p)
  unfolding load
  Clocked-load p = record { apply = λ w. found w (get_elem? w.heap p) refl }
    where
      found :
          (w : World os) (o : Option (Option Process))
          → get_elem? w.heap p ≡ o
          → now w.system ≤ now (final (load p w)).system
      found w none e = rw (load, e) (omega arith)
      found w (some none) e = rw (load, e) (omega arith)
      found w (some (some x)) e = rw (load, e) (omega arith)
