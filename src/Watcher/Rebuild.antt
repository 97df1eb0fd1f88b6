-- ===== src/Watcher/Rebuild.antt =====
-- What `listen` of src/watcher.cpp starts for one change of a file.
use renzoku.Prelude.{
  ℕ, ◌≡◌, refl, ◌⊎◌, inl, inr, some, List, [], ◌∷◌, ◌++◌, arith, leb, append_assoc, append-nil,
}
use renzoku.Text.{Text, bytes, c_str}
use renzoku.World.{Os, Ptr}
use renzoku.World.Does.{Does, Any, Does-bind, Does-then, Does-pure, Does-if, Does-system}
use renzoku.World.Starts.{
  Starts, Starts-map, Starts-bind, Starts-then, Starts-Does, Starts-pure, Starts-if,
}
use renzoku.Log.{debug, info, success, error}
use renzoku.Log.Printf.{string, unsigned, to_base, printf}
use renzoku.Log.Message.{printf-NoPercent}
use renzoku.Log.Returns.{Fits, Does-log_me, plain-Fits}
use renzoku.Process.Starts.{IsParent, Does-run_and_wait}
use renzoku.Procman.Restart.{IsComplete, Does-deref, Starts-restart_all}
use renzoku.Watcher.{
  Watcher, rebuild, restart_program, restart_after, rebuild_and_restart, on_match,
}

pub modified-Fits :
    (name : Text)
    → Fits (27 ∷ bytes "[0;32m=> File %s was modified!" ++ (27 ∷ bytes "[0m")) (string name ∷ [])
unfolding bytes c_str printf
modified-Fits name = (
  27 ∷ bytes "[0;32m=> File " ++ (c_str name ++ (bytes " was modified!" ++ (27 ∷ bytes "[0m"))),
  λ rest h. rw (printf-NoPercent rest h) (simp append_assoc),
)

pub due-Fits : (due : ℕ) → Fits (bytes "%ju") (unsigned due ∷ [])
unfolding bytes c_str printf
due-Fits due = (to_base 10 due, λ rest h. rw (printf-NoPercent rest h))

-- What one change of a file that is due starts: the build step; if that succeeds the build step a
-- second time; and if that succeeds too, the processes in order and the program.
pub data Rebuild (b : Ptr) (processes : List Ptr) (p : Ptr) (ps : List Ptr) : Type 0 where
  failed : ps ≡ b ∷ [] → Rebuild b processes p ps
  failed_again : ps ≡ b ∷ b ∷ [] → Rebuild b processes p ps
  relaunched : ps ≡ b ∷ b ∷ (processes ++ (p ∷ [])) → Rebuild b processes p ps

-- Any number of them, one after another.
pub data Rebuilds (b : Ptr) (processes : List Ptr) (p : Ptr) : List Ptr → Type 0 where
  rest : Rebuilds b processes p []
  more :
      {ps qs : List Ptr}
      → Rebuild b processes p ps
      → Rebuilds b processes p qs
      → Rebuilds b processes p (ps ++ qs)

pub Rebuilds-append :
    {b p : Ptr} {processes : List Ptr} (ps qs : List Ptr)
    → Rebuilds b processes p ps
    → Rebuilds b processes p qs
    → Rebuilds b processes p (ps ++ qs)
Rebuilds-append ps qs rest k = k
Rebuilds-append ps qs (more {ps = first} {qs = later} h t) k =
    rw (append_assoc first later qs) (more h (Rebuilds-append later qs t k))

-- A watcher whose builder is that of its manager, which has a program.
pub record IsArmed (n : ℕ) (b p : Ptr) (processes : List Ptr) (x : Watcher) : Type 0 where
  pub builder : x.builder ≡ some b
  pub complete : IsComplete n x.config.procman b p
  pub listed : x.config.procman.processes ≡ processes

-- The watcher stays armed, and what it has started are rebuilds.
abbrev pub Rebuilt : ℕ → Ptr → Ptr → List Ptr → Watcher → List Ptr → Type 0
Rebuilt n b p processes x ps = IsArmed n b p processes x × Rebuilds b processes p ps

module _ (os : Os) (parent : IsParent os) {n : ℕ} (b p : Ptr) (processes : List Ptr) where
  pub Does-rebuild : (x : Watcher) → IsArmed n b p processes x → Does n Any (b ∷ []) (rebuild os x)
  unfolding rebuild bytes c_str
  Does-rebuild x v = Does-deref _ v.builder (
      Does-bind (Does-run_and_wait os parent b v.complete.builder_below) λ status _.
        Does-then
          (Does-if status
            (Does-log_me success _ _
              (plain-Fits (bytes "Successfully rebuilt project") (omega arith)))
            (Does-log_me error _ _ (plain-Fits (bytes "Project failed to rebuild") (omega arith))))
          (Does-pure tt))

  Starts-restart_after :
      (due : ℕ) (x : Watcher)
      → IsArmed n b p processes x
      → Starts n
          (λ x' ps.
            IsArmed n b p processes x' × ((ps ≡ b ∷ []) ⊎ (ps ≡ b ∷ (processes ++ (p ∷ [])))))
          (restart_after os due x)
  unfolding restart_after restart_program
  Starts-restart_after due x v =
      Starts-then {R = λ _ ps. ps ≡ []}
        (Starts-Does (λ _ _. refl) (Does-log_me debug _ _ (due-Fits due)))
        λ _ ps e.
          Starts-bind {R = λ _ qs. qs ≡ []}
            (Starts-Does {P = Any} (λ _ _. refl) (Does-system os.time (λ _. tt)))
            λ now qs f.
              Starts-then (Starts-restart_all os parent x.config.procman b p v.complete) λ _ rs g.
                Starts-pure (record x { timer = now })
                  (
                    record { builder = v.builder; complete = v.complete; listed = v.listed },
                    rw (e, f, append-nil rs, ← v.listed) g,
                  )

  Starts-rebuild_and_restart :
      (due : ℕ) (x : Watcher)
      → IsArmed n b p processes x
      → Starts n
          (λ x' ps. IsArmed n b p processes x' × Rebuild b processes p ps)
          (rebuild_and_restart os due x)
  unfolding rebuild_and_restart
  Starts-rebuild_and_restart due x v =
      Starts-bind {R = λ _ ps. ps ≡ b ∷ []} (Starts-Does (λ _ _. refl) (Does-rebuild x v))
        λ ok ps e.
          Starts-if ok
            (Starts-map (λ x' qs (v', g). (v', rw e (again qs g))) (Starts-restart_after due x v))
            (Starts-pure x (v, failed (rw (append-nil ps) e)))
    where
      again :
          (qs : List Ptr)
          → (qs ≡ b ∷ []) ⊎ (qs ≡ b ∷ (processes ++ (p ∷ [])))
          → Rebuild b processes p (b ∷ qs)
      again qs (inl g) = failed_again (rw g)
      again qs (inr g) = relaunched (rw g)

  pub Starts-on_match :
      (name : Text) (x : Watcher)
      → IsArmed n b p processes x
      → Starts n (Rebuilt n b p processes) (on_match os name x)
  unfolding on_match
  Starts-on_match name x v =
      Starts-then {R = λ _ ps. ps ≡ []}
        (Starts-Does (λ _ _. refl) (Does-log_me info _ _ (modified-Fits name)))
        λ _ ps e.
          Starts-bind {R = λ _ qs. qs ≡ []}
            (Starts-Does {P = Any} (λ _ _. refl) (Does-system os.time (λ _. tt)))
            λ now qs f.
              Starts-if (leb (os.mktime_after x.timer 5) now)
                (Starts-map (λ x' rs (v', g). (v', rw (e, f) (rw (← append-nil rs) (more g rest))))
                  (Starts-rebuild_and_restart (os.mktime_after x.timer 5) x v))
                (Starts-pure x (v, rw (e, f) rest))
