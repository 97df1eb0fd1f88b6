-- ===== src/Watcher/Paced.antt =====
-- How often `listen` of src/watcher.cpp restarts the program.
pub mod Listen
use renzoku.Prelude.{
  ℕ, zero, suc, ℤ, pos, negsuc, at_most, ◌+◌, ◌*◌, ◌≤◌, ◌<◌, ◌≡◌, refl, sym, ◌∙◌, ◌⊎◌, inl, inr,
  Bool, true, false, some, List, [], ◌∷◌, ◌++◌, arith, leb, leb→le, length, append_assoc,
  append-nil, All, if◌then◌else◌,
}
use renzoku.Text.{Text, bytes, size_mod}
use renzoku.World.{Os, World, InotifyEvent, Ptr}
use renzoku.World.Does.{Does, Any, IsReady, Returns, Does-pure, Does-system}
use renzoku.World.Starts.{Started, Starts, Starts-Does, Starts-pure}
use renzoku.World.Clocked.{
  IsClock, Clocked, Clocked-bind, Clocked-then, Clocked-pure, Clocked-if, Clocked-deref,
  Clocked-system,
}
use renzoku.World.Paces.{
  Paces, Paces-bind, Paces-then, Paces-map, Paces-Starts, Paces-pure, Paces-if, Paces-time,
}
use renzoku.Log.{debug, info, success, error}
use renzoku.Log.Returns.{Does-log_me, Does-log_error}
use renzoku.Log.Clocked.{Clocked-log_me, Clocked-log_error}
use renzoku.Process.Starts.{IsParent}
use renzoku.Process.Clocked.{Clocked-run_and_wait}
use renzoku.Procman.Restart.{Starts-restart_all}
use renzoku.Procman.Clocked.{Clocked-restart_all}
use renzoku.Watcher.{
  Watcher, rebuild, restart_program, restart_after, rebuild_and_restart, on_match,
}
use renzoku.Watcher.Rebuild.{IsArmed, Does-rebuild, due-Fits, modified-Fits}

-- Rebuilds between two readings of the clock, with the time of the last restart before and behind
-- them, and the number of the restarts among them: from the time `t` of the last restart and the
-- clock `c`, `k` restarts, to the time `u` and the clock `d`. Each rebuild comes at a clock `e`
-- that is five seconds or more behind the last restart. A build that fails leaves that time as it
-- is. A build that succeeds is followed by the second build and, if that succeeds too, by the
-- processes and the program; the time of the last restart is then a clock `s` behind the build.
pub data Paced (b : Ptr) (processes : List Ptr) (p : Ptr)
    : ℕ → ℕ → ℕ → List Ptr → ℕ → ℕ → Type 0 where
  idle : {t c d : ℕ} → c ≤ d → Paced b processes p t c zero [] t d
  failed :
      {t c e k u d : ℕ} {ps : List Ptr}
      → t + 5 ≤ e
      → c ≤ e
      → Paced b processes p t e k ps u d
      → Paced b processes p t c k (b ∷ ps) u d
  restarted :
      {t c e s f k u d : ℕ} {first ps : List Ptr}
      → (first ≡ b ∷ []) ⊎ (first ≡ b ∷ (processes ++ (p ∷ [])))
      → t + 5 ≤ e
      → c ≤ e
      → e ≤ s
      → s ≤ f
      → Paced b processes p s f k ps u d
      → Paced b processes p t c (suc k) (b ∷ (first ++ ps)) u d

-- The time between the first and the last restart is five seconds for each.
pub Paced-le :
    {b p : Ptr} {processes : List Ptr} {t c k u d : ℕ} {ps : List Ptr}
    → Paced b processes p t c k ps u d
    → t + 5 * k ≤ u
Paced-le (idle le) = omega arith
Paced-le (failed due since h) = Paced-le h
Paced-le (restarted shape due since kept behind h) =
    let ih = Paced-le h in omega (arith, due, kept, ih)

-- From an earlier clock on.
Paced-since :
    {b p : Ptr} {processes : List Ptr} {t c c' k u d : ℕ} {ps : List Ptr}
    → c' ≤ c
    → Paced b processes p t c k ps u d
    → Paced b processes p t c' k ps u d
Paced-since le (idle le') = idle (omega (arith, le, le'))
Paced-since le (failed due since h) = failed due (omega (arith, le, since)) h
Paced-since le (restarted shape due since kept behind h) =
    restarted shape due (omega (arith, le, since)) kept behind h

abbrev pub IsPaced : Ptr → List Ptr → Ptr → ℕ → ℕ → List Ptr → ℕ → ℕ → Type 0
IsPaced b processes p t c ps u d = (k : ℕ) × Paced b processes p t c k ps u d

pub IsPaced-append :
    {b p : Ptr} {processes : List Ptr} {t c s d u e k : ℕ} {ps qs : List Ptr}
    → Paced b processes p t c k ps s d
    → IsPaced b processes p s d qs u e
    → IsPaced b processes p t c (ps ++ qs) u e
IsPaced-append (idle le) (k, h) = (k, Paced-since le h)
IsPaced-append (failed due since g) h =
    let (k, rest) = IsPaced-append g h in (k, failed due since rest)
IsPaced-append {qs} (restarted {first} {ps} shape due since kept behind g) h =
    let (k, rest) = IsPaced-append g h in
    (suc k, rw (append_assoc first ps qs) (restarted shape due since kept behind rest))

-- The watcher behind a call that was made at the clock `c` or later: it is armed, its last
-- restart is not in the future, and the call has started a paced sequence of rebuilds.
abbrev pub PacedFrom : ℕ → Ptr → List Ptr → Ptr → Watcher → ℕ → Watcher → List Ptr → ℕ → Type 0
PacedFrom n b processes p x c x' ps u =
    IsArmed n b p processes x' × ((x'.timer ≤ u) × IsPaced b processes p x.timer c ps x'.timer u)

pub PacedFrom-since :
    {n : ℕ} {b p : Ptr} {processes : List Ptr} (x x' : Watcher) {c c' u : ℕ} {ps : List Ptr}
    → c' ≤ c
    → PacedFrom n b processes p x c x' ps u
    → PacedFrom n b processes p x c' x' ps u
PacedFrom-since x x' le (armed, (old, (k, h))) = (armed, (old, (k, Paced-since le h)))

module _ {os : Os} (now : os.State → ℕ) (c : IsClock os now) where
  Clocked-rebuild : (x : Watcher) → Clocked now (rebuild os x)
  unfolding rebuild
  Clocked-rebuild x = Clocked-bind now (Clocked-deref now x.builder) λ q.
      Clocked-bind now (Clocked-run_and_wait now c q) λ status.
        Clocked-then now
          (Clocked-if now status (Clocked-log_me now c success _ _)
            (Clocked-log_me now c error _ _))
          (Clocked-pure now status)

module _ {os : Os} (parent : IsParent os) (now : os.State → ℕ) (c : IsClock os now) {n : ℕ}
    (b p : Ptr) (processes : List Ptr) where
  Paces-restart_after :
      (due t : ℕ) (x : Watcher)
      → IsArmed n b p processes x
      → Paces n now t
          (λ x' ps u.
            IsArmed n b p processes x'
            × ((t ≤ x'.timer)
                × ((x'.timer ≤ u) × ((ps ≡ b ∷ []) ⊎ (ps ≡ b ∷ (processes ++ (p ∷ [])))))))
          (restart_after os due x)
  unfolding restart_after restart_program
  Paces-restart_after due t x v =
      Paces-then n now
        (Paces-Starts n now {S = λ _ ps. ps ≡ []}
          (Starts-Does (λ _ _. refl) (Does-log_me debug _ _ (due-Fits due)))
          (Clocked-log_me now c debug _ _))
        λ _ ps s le e. Paces-bind n now (Paces-time n now c) λ now' qs u le' (f, (low, high)).
          Paces-then n now
            (Paces-Starts n now (Starts-restart_all os parent x.config.procman b p v.complete)
              (Clocked-restart_all now c x.config.procman))
            λ _ rs u' le'' g.
              Paces-pure n now (record x { timer = now' })
                λ u'' le3. (
                  record { builder = v.builder; complete = v.complete; listed = v.listed },
                  (
                    omega (arith, le, low),
                    (omega (arith, high, le'', le3), rw (e, f, append-nil rs, ← v.listed) g),
                  ),
                )

  Paces-rebuild_and_restart :
      (due t : ℕ) (x : Watcher)
      → IsArmed n b p processes x
      → x.timer + 5 ≤ t
      → Paces n now t (PacedFrom n b processes p x t) (rebuild_and_restart os due x)
  unfolding rebuild_and_restart
  Paces-rebuild_and_restart due t x v late =
      Paces-bind n now
        (Paces-Starts n now {S = λ _ ps. ps ≡ b ∷ []}
          (Starts-Does (λ _ _. refl) (Does-rebuild os parent b p processes x v))
          (Clocked-rebuild now c x))
        λ ok ps s le e.
          Paces-if n now ok
            (λ _.
              Paces-map n now
                (λ x' qs u _ (v', (low, (high, g))). (
                  v',
                  (
                    high,
                    (
                      1,
                      rw (e, ← append-nil qs)
                          (restarted g late (omega arith) (omega (arith, le, low)) high
                            (idle (omega arith))),
                    ),
                  ),
                ))
                (Paces-restart_after due s x v))
            (λ _. Paces-pure n now x λ u le'. (
              v,
              (
                omega (arith, late, le, le'),
                (0, rw e (failed late (omega arith) (idle (omega (arith, le, le'))))),
              ),
            ))

  pub Paces-on_match :
      (name : Text) (t : ℕ) (x : Watcher)
      → IsArmed n b p processes x
      → x.timer ≤ t
      → Paces n now t (PacedFrom n b processes p x t) (on_match os name x)
  unfolding on_match
  Paces-on_match name t x v old =
      Paces-then n now
        (Paces-Starts n now {S = λ _ ps. ps ≡ []}
          (Starts-Does (λ _ _. refl) (Does-log_me info _ _ (modified-Fits name)))
          (Clocked-log_me now c info _ _))
        λ _ ps s le e. Paces-bind n now (Paces-time n now c) λ now' qs u le' (f, (low, high)).
          Paces-if n now (leb (os.mktime_after x.timer 5) now')
            (λ h.
              let due = leb→le (os.mktime_after x.timer 5) now' h in
              let five = c.adds x.timer 5 in
              Paces-map n now
                (λ x' rs u' _ g.
                  rw (e, f) (PacedFrom-since x x' {c = u} (omega (arith, le, le')) g))
                (Paces-rebuild_and_restart (os.mktime_after x.timer 5) u x v
                  (omega (arith, due, five, high))))
            (λ _. Paces-pure n now x λ u' le''. (
              v,
              (
                omega (arith, old, le, le', le''),
                (0, rw (e, f) (idle (omega (arith, le, le', le'')))),
              ),
            ))
