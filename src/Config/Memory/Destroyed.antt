-- ===== src/Config/Memory/Destroyed.antt =====
-- The destructor of src/config.cpp, on the memory that the assignments of the commands have left.
use renzoku.Prelude.{
  ℕ, ◌+◌, ◌≡◌, refl, ◌∙◌, Option, none, some, List, [], ◌∷◌, ◌++◌, arith, get_elem?, All, All-map,
  All-append,
}
use renzoku.Text.{Text}
use renzoku.World.{Ptr}
use renzoku.Procman.Apart.{NotIn}
use renzoku.Util.Command.Memory.{Memory, addresses, delete_array}
use renzoku.Config.Memory.{
  Member, compile, test, program, Commands, no_commands, assign_all, delete_command, destroy,
}
use renzoku.Config.Memory.Blocks.{IsLive, Frees, Frees-bind, delete_both-Frees}
use renzoku.Config.Memory.Owned.{StringsAt, Holds, blocks, Owned, assign_all-Owned}
use renzoku.Config.Memory.Last.{last}
use renzoku.Config.Memory.Addresses.{addresses-from, addresses-AreDistinct}

StringsAt-IsLive :
    (m : Memory) (n : ℕ) (ts : List Text) → StringsAt m n ts → All (IsLive m) (addresses n ts)
StringsAt-IsLive m n [] h = tt
StringsAt-IsLive m n (t ∷ ts) h = ((_, h.0), StringsAt-IsLive m (n + 1) ts h.1)

delete_command-Frees :
    (o : Option Ptr) (t : Option (List Text)) (m : Memory)
    → Holds m o t
    → Frees (blocks o t) m (delete_command o m)
unfolding delete_command delete_array
delete_command-Frees none none m h = (m, refl, record { gone = tt; others = λ q n. refl })
delete_command-Frees none (some command) m h = absurd h
delete_command-Frees (some p) none m h = absurd h
delete_command-Frees (some p) (some command) m h =
    rw (delete_array, h.0)
      (delete_both-Frees (addresses (p + 1) command) p m (addresses-AreDistinct (p + 1) command)
        (All-map (λ q le. ((λ e. omega (arith, le, e)), tt)) (addresses (p + 1) command)
          (addresses-from (p + 1) command))
        (StringsAt-IsLive m (p + 1) command h.1) (_, h.0))

StringsAt-others :
    (m m' : Memory) (gone : List Ptr)
    → ((q : Ptr) → NotIn q gone → get_elem? m' q ≡ get_elem? m q)
    → (n : ℕ) (ts : List Text) → All (λ p. NotIn p gone) (addresses n ts)
    → StringsAt m n ts
    → StringsAt m' n ts
StringsAt-others m m' gone same n [] apart h = tt
StringsAt-others m m' gone same n (t ∷ ts) apart h =
    (same n apart.0 ∙ h.0, StringsAt-others m m' gone same (n + 1) ts apart.1 h.1)

Holds-others :
    (m m' : Memory) (gone : List Ptr)
    → ((q : Ptr) → NotIn q gone → get_elem? m' q ≡ get_elem? m q)
    → (o : Option Ptr) (t : Option (List Text)) → All (λ p. NotIn p gone) (blocks o t)
    → Holds m o t
    → Holds m' o t
Holds-others m m' gone same none t apart h = h
Holds-others m m' gone same (some p) none apart h = h
Holds-others m m' gone same (some p) (some command) apart h =
    let (strings, last) = All-split (addresses (p + 1) command) p apart in
    (same p last ∙ h.0, StringsAt-others m m' gone same (p + 1) command strings h.1)
  where
    All-split :
        (ps : List Ptr) (p : Ptr)
        → All (λ p. NotIn p gone) (ps ++ (p ∷ []))
        → All (λ p. NotIn p gone) ps × NotIn p gone
    All-split [] p h = (tt, h.0)
    All-split (q ∷ ps) p h = let (a, b) = All-split ps p h.1 in ((h.0, a), b)

-- The blocks of all three members.
abbrev pub owned_blocks : Commands → (Member → Option (List Text)) → List Ptr
owned_blocks c t =
    blocks (c compile) (t compile) ++ (blocks (c test) (t test) ++ blocks (c program) (t program))

All-beside :
    (ps qs rs : List Ptr)
    → All (λ p. NotIn p qs) ps
    → All (λ p. NotIn p rs) ps
    → All (λ p. NotIn p (qs ++ rs)) ps
All-beside [] qs rs a b = tt
All-beside (p ∷ ps) qs rs a b = (All-append _ qs rs a.0 b.0, All-beside ps qs rs a.1 b.1)

destroy-Frees :
    (c : Commands) (m : Memory) (t : Member → Option (List Text))
    → Owned c m t
    → Frees (owned_blocks c t) m (destroy c m)
unfolding destroy
destroy-Frees c m t h =
    Frees-bind (b compile) (b test ++ b program) m (delete_command (c compile) m) _
      (All-beside (b compile) (b test) (b program) (h.apart compile test refl)
        (h.apart compile program refl))
      (delete_command-Frees (c compile) (t compile) m (h.holds compile))
      λ m' f.
        Frees-bind (b test) (b program) m' (delete_command (c test) m') (delete_command (c program))
          (h.apart test program refl)
          (delete_command-Frees (c test) (t test) m' (
            Holds-others m m' (b compile) f.others (c test) (t test) (h.apart test compile refl)
              (h.holds test)))
          λ m'' f'. delete_command-Frees (c program) (t program) m'' (
            Holds-others m' m'' (b test) f'.others (c program) (t program)
              (h.apart program test refl)
              (Holds-others m m' (b compile) f.others (c program) (t program)
                (h.apart program compile refl) (h.holds program)))
  where
    b : Member → List Ptr
    b s = blocks (c s) (t s)

-- Behind any assignments of commands, each member holds the command that it was assigned last, in
-- blocks that are no other member's. The destructor deletes these blocks, each once, and no
-- deleted or absent one; all other blocks stay as they are, so those of a command that was
-- overwritten are never deleted.
pub destroy-assigned :
    (a : List (Member × List Text))
    → let state = assign_all a (no_commands, []) in
      Owned state.0 state.1 (last a none)
      × Frees (owned_blocks state.0 (last a none)) state.1 (destroy state.0 state.1)
destroy-assigned a =
    let h = assign_all-Owned a no_commands [] (λ s. none) nothing in (h, destroy-Frees _ _ _ h)
  where
    nothing : Owned no_commands [] (λ s. none)
    nothing = record { holds = λ s. tt; below = λ s. tt; apart = λ r s other. tt }
