-- ===== src/Procman/Destroy.antt =====
-- The destructor of src/procman.cpp.
use renzoku.Prelude.{
  ℕ, ◌≡◌, ◌≢◌, refl, sym, ◌∙◌, Option, none, some, List, [], ◌∷◌, ◌++◌, get_elem?, All, All-append,
}
use renzoku.World.{Os, World, Process, Ptr}
use renzoku.World.Does.{started_by}
use renzoku.World.Ends.{Ends, returned, Ends-bind, Ends-map}
use renzoku.Process.Delete.{IsGone, delete-IsGone}
use renzoku.Procman.{ProcessManager, delete_if_set, delete_each, destroy}
use renzoku.Procman.Apart.{NotIn, AreDistinct, OtherThan, Differ, IsApart}

-- The pointers of a list, or of one that may be null, are to objects that are there.
abbrev pub IsLive : {os : Os} → World os → Ptr → Type 0
IsLive w p = (x : Process) × (get_elem? w.heap p ≡ some (some x))

abbrev pub AreLive : {os : Os} → World os → List Ptr → Type 0
AreLive w = All (IsLive w)

abbrev pub some_pointer : Option Ptr → List Ptr
some_pointer none = []
some_pointer (some p) = p ∷ []

-- The objects are gone, all others are as they were, and nothing was started.
pub record AreGone {os : Os} (ps : List Ptr) (w w' : World os) : Type 0 where
  pub gone : All (λ p. get_elem? w'.heap p ≡ some none) ps
  pub others : (q : Ptr) → NotIn q ps → get_elem? w'.heap q ≡ get_elem? w.heap q
  pub starts : started_by w'.trace ≡ started_by w.trace

not_sym : (p q : Ptr) → p ≢ q → q ≢ p
not_sym p q h e = h (sym e)

one-NotIn : (p : Ptr) (ps : List Ptr) → NotIn p ps → All (λ q. NotIn q (p ∷ [])) ps
one-NotIn p [] h = tt
one-NotIn p (q ∷ ps) h = ((not_sym p q h.0, tt), one-NotIn p ps h.1)

other-NotIn :
    (ps : List Ptr) (o : Option Ptr) → OtherThan ps o → All (λ q. NotIn q ps) (some_pointer o)
other-NotIn ps none h = tt
other-NotIn ps (some p) h = (h, tt)

NotIn-other :
    (ps : List Ptr) (o : Option Ptr) → OtherThan ps o → All (λ q. NotIn q (some_pointer o)) ps
NotIn-other [] o h = tt
NotIn-other (p ∷ ps) none h = (tt, NotIn-other ps none tt)
NotIn-other (p ∷ ps) (some q) h = ((not_sym q p h.0, tt), NotIn-other ps (some q) h.1)

NotIn-both :
    (ps qs rs : List Ptr)
    → All (λ p. NotIn p qs) ps
    → All (λ p. NotIn p rs) ps
    → All (λ p. NotIn p (qs ++ rs)) ps
NotIn-both [] qs rs h k = tt
NotIn-both (p ∷ ps) qs rs h k = (All-append _ qs rs h.0 k.0, NotIn-both ps qs rs h.1 k.1)

Differ-NotIn :
    (b p : Option Ptr) → Differ b p → All (λ q. NotIn q (some_pointer p)) (some_pointer b)
Differ-NotIn none p h = tt
Differ-NotIn (some b) none h = (tt, tt)
Differ-NotIn (some b) (some p) h = ((h, tt), tt)

Differ-sym : (b p : Option Ptr) → Differ b p → Differ p b
Differ-sym none none h = tt
Differ-sym none (some p) h = tt
Differ-sym (some b) none h = tt
Differ-sym (some b) (some p) h = not_sym b p h

NotIn-split : (q : Ptr) (ps qs : List Ptr) → NotIn q (ps ++ qs) → NotIn q ps × NotIn q qs
NotIn-split q [] qs h = (tt, h)
NotIn-split q (p ∷ ps) qs h = let (a, b) = NotIn-split q ps qs h.1 in ((h.0, a), b)

-- The pointers of a manager that are not null, in the order in which the destructor comes to
-- them.
abbrev pub pointers : ProcessManager → List Ptr
pointers pm = pm.processes ++ (some_pointer pm.build_step ++ some_pointer pm.program)

module _ {os : Os} where
  pub live_after :
      {w w' : World os} (gone qs : List Ptr)
      → AreGone gone w w'
      → All (λ q. NotIn q gone) qs
      → AreLive w qs
      → AreLive w' qs
  live_after gone [] g n l = tt
  live_after gone (q ∷ qs) g n ((x, e), l) = ((x, g.others q n.0 ∙ e), live_after gone qs g n.1 l)

  gone_after :
      {w w' : World os} (ps gone : List Ptr)
      → AreGone gone w w'
      → All (λ p. NotIn p gone) ps
      → All (λ p. get_elem? w.heap p ≡ some none) ps
      → All (λ p. get_elem? w'.heap p ≡ some none) ps
  gone_after [] gone g n h = tt
  gone_after (p ∷ ps) gone g n h = (g.others p n.0 ∙ h.0, gone_after ps gone g n.1 h.1)

  AreGone-cons :
      {w u w' : World os} (p : Ptr) (ps : List Ptr)
      → NotIn p ps
      → IsGone p w u
      → AreGone ps u w'
      → AreGone (p ∷ ps) w w'
  AreGone-cons p ps n a b = record {
    gone = (b.others p n ∙ a.gone, b.gone);
    others = λ q h. b.others q h.1 ∙ a.others q h.0;
    starts = b.starts ∙ a.starts;
  }

  AreGone-one : {w w' : World os} (p : Ptr) → IsGone p w w' → AreGone (p ∷ []) w w'
  AreGone-one p a = record {
    gone = (a.gone, tt);
    others = λ q h. a.others q h.0;
    starts = a.starts;
  }

  AreGone-nil : (w : World os) → AreGone [] w w
  AreGone-nil w = record { gone = tt; others = λ q h. refl; starts = refl }

AreGone-append :
    {os : Os} {w u w' : World os} (ps qs : List Ptr)
    → All (λ p. NotIn p qs) ps
    → AreGone ps w u
    → AreGone qs u w'
    → AreGone (ps ++ qs) w w'
AreGone-append {w} {u} {w'} ps qs n a b = record {
  gone = All-append _ ps qs (gone_after ps qs b n a.gone) b.gone;
  others = λ q h. let (k, l) = NotIn-split q ps qs h in b.others q l ∙ a.others q k;
  starts = b.starts ∙ a.starts;
}

module _ (os : Os) where
  delete_each-AreGone :
      (ps : List Ptr) (w : World os)
      → AreDistinct ps
      → AreLive w ps
      → Ends (λ _ w'. AreGone ps w w') ⊥ (delete_each os ps w)
  unfolding delete_each
  delete_each-AreGone [] w d l = returned (AreGone-nil w)
  delete_each-AreGone (p ∷ ps) w d ((x, e), l) = Ends-bind (delete-IsGone os p x w e) λ _ u g.
      Ends-map (λ _ w' h. AreGone-cons p ps d.0 g h) (λ e. e)
        (delete_each-AreGone ps u d.1
          (live_after (p ∷ []) ps (AreGone-one p g) (one-NotIn p ps d.0) l))

  delete_if_set-AreGone :
      (o : Option Ptr) (w : World os)
      → AreLive w (some_pointer o)
      → Ends (λ _ w'. AreGone (some_pointer o) w w') ⊥ (delete_if_set os o w)
  unfolding delete_if_set
  delete_if_set-AreGone none w l = returned (AreGone-nil w)
  delete_if_set-AreGone (some p) w ((x, e), _) =
      Ends-map (λ _ w' g. AreGone-one p g) (λ e. e) (delete-IsGone os p x w e)

  -- The destructor of a manager whose pointers are all different, and to objects that are there,
  -- returns. Each of these objects is gone, every other is as it was, and nothing was started. So
  -- no object is deleted twice or used behind its `delete`, which would be undefined.
  pub destroy-AreGone :
      {n : ℕ} (pm : ProcessManager) (w : World os)
      → IsApart n pm
      → AreLive w pm.processes
      → AreLive w (some_pointer pm.build_step)
      → AreLive w (some_pointer pm.program)
      → Ends (λ _ w'. AreGone (pointers pm) w w') ⊥ (destroy os pm w)
  unfolding destroy
  destroy-AreGone pm w a lps lb lp =
      let ps = pm.processes in
      let b = some_pointer pm.build_step in
      let p = some_pointer pm.program in
      Ends-bind (delete_each-AreGone ps w a.processes lps) λ _ u g.
        Ends-bind
          (delete_if_set-AreGone pm.build_step u
            (live_after ps b g (other-NotIn ps pm.build_step a.build) lb))
          λ _ v h.
            Ends-map
              (λ _ w' k.
                AreGone-append ps (b ++ p)
                  (NotIn-both ps b p (NotIn-other ps pm.build_step a.build)
                    (NotIn-other ps pm.program a.program))
                  g (AreGone-append b p (Differ-NotIn pm.build_step pm.program a.both) h k))
              (λ e. e)
              (delete_if_set-AreGone pm.program v (
                live_after b p h
                  (Differ-NotIn pm.program pm.build_step
                    (Differ-sym pm.build_step pm.program a.both))
                  (live_after ps p g (other-NotIn ps pm.program a.program) lp)))
