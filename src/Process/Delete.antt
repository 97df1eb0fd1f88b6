-- ===== src/Process/Delete.antt =====
-- The destructor of src/process.cpp, behind `delete`.
use renzoku.Prelude.{
  ◌≡◌, ◌≢◌, refl, ◌∙◌, Bool, true, false, [], ◌∷◌, append-nil, if◌then◌else◌, ap, none, some,
  get_elem?, get_elem?-lt, get_elem?-set_self, get_elem?-set_other,
}
use renzoku.World.{Os, World, Process, Ptr, deleted, emit, pure}
use renzoku.World.Does.{started_by, started_by-append}
use renzoku.World.Ends.{Ends, returned, Ends-bind, IsSame, IsSame-refl}
use renzoku.World.Traces.{free_lem, load_lem}
use renzoku.Process.{delete, delete_words}
use renzoku.Process.Leaves.{kill-IsSame}

-- The object is gone, all others are as they were, and nothing was started.
pub record IsGone {os : Os} (p : Ptr) (w w' : World os) : Type 0 where
  pub gone : get_elem? w'.heap p ≡ some none
  pub others : (q : Ptr) → q ≢ p → get_elem? w'.heap q ≡ get_elem? w.heap q
  pub starts : started_by w'.trace ≡ started_by w.trace

delete_words-IsSame :
    (os : Os) (x : Process) (w : World os) → Ends (λ _ w'. IsSame w w') ⊥ (delete_words os x w)
unfolding delete_words started_by
delete_words-IsSame os x w = released x.generated_command
  where
    released :
        (b : Bool)
        → Ends (λ _ w'. IsSame w w') ⊥ ((if b then emit (deleted x.command) else pure tt) w)
    released true = returned (record {
      heap = refl;
      starts = started_by-append w.trace (deleted x.command ∷ []) ∙ append-nil (started_by w.trace);
    })
    released false = returned (IsSame-refl w)

pub delete-IsGone :
    (os : Os) (p : Ptr) (x : Process) (w : World os)
    → get_elem? w.heap p ≡ some (some x)
    → Ends (λ _ w'. IsGone p w w') ⊥ (delete os p w)
unfolding delete
delete-IsGone os p x w e = Ends-bind (kill-IsSame os p x w e) λ ok u (_, same).
    let there : get_elem? u.heap p ≡ some (some x) = ap (λ heap. get_elem? heap p) same.heap ∙ e in
    rw (load_lem p u there) (
      Ends-bind (delete_words-IsSame os x u) λ _ v still. rw (free_lem p v) (
        returned (record {
          gone =
              get_elem?-set_self v.heap p none
                (rw (still.heap, same.heap) (get_elem?-lt w.heap p e));
          others = λ q h.
              get_elem?-set_other v.heap p q none h
              ∙ ap (λ heap. get_elem? heap q) (still.heap ∙ same.heap);
          starts = still.starts ∙ same.starts;
        })))
