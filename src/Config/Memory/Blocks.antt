-- ===== src/Config/Memory/Blocks.antt =====
-- The `delete[]` of distinct blocks.
use renzoku.Prelude.{
  ◌≡◌, refl, sym, ◌∙◌, Option, none, some, List, [], ◌∷◌, ◌++◌, get_elem?, set, get_elem?-lt,
  get_elem?-set_self, get_elem?-set_other, All, All-append,
}
use renzoku.World.{Ptr}
use renzoku.Util.Command.{◌>>=◌}
use renzoku.Procman.Apart.{NotIn, AreDistinct}
use renzoku.Util.Command.Memory.{Block, Memory, delete_block, delete_strings}

abbrev pub IsLive : Memory → Ptr → Type 0
IsLive m p = (b : Block) × (get_elem? m p ≡ some (some b))

-- The blocks are deleted, and all others are as they were.
pub record AreFreed (ps : List Ptr) (m m' : Memory) : Type 0 where
  pub gone : All (λ p. get_elem? m' p ≡ some none) ps
  pub others : (q : Ptr) → NotIn q ps → get_elem? m' q ≡ get_elem? m q

-- The call succeeds, and deletes the blocks.
abbrev pub Frees : List Ptr → Memory → Option Memory → Type 0
Frees ps m r = (m' : Memory) × (r ≡ some m') × AreFreed ps m m'

pub AreLive-others :
    (m m' : Memory) (gone ps : List Ptr)
    → ((q : Ptr) → NotIn q gone → get_elem? m' q ≡ get_elem? m q)
    → All (λ p. NotIn p gone) ps
    → All (IsLive m) ps
    → All (IsLive m') ps
AreLive-others m m' gone [] same n l = tt
AreLive-others m m' gone (p ∷ ps) same n ((b, e), l) =
    ((b, same p n.0 ∙ e), AreLive-others m m' gone ps same n.1 l)

pub All-NotIn-sym : (ps qs : List Ptr) → All (λ p. NotIn p qs) ps → All (λ q. NotIn q ps) qs
All-NotIn-sym ps [] h = tt
All-NotIn-sym ps (q ∷ qs) h = (flip ps q qs h, All-NotIn-sym ps qs (rest ps h))
  where
    flip : (ps : List Ptr) (q : Ptr) (qs : List Ptr) → All (λ p. NotIn p (q ∷ qs)) ps → NotIn q ps
    flip [] q qs h = tt
    flip (p ∷ ps) q qs h = ((λ e. h.0.0 (sym e)), flip ps q qs h.1)

    rest : (ps : List Ptr) → All (λ p. NotIn p (q ∷ qs)) ps → All (λ p. NotIn p qs) ps
    rest [] h = tt
    rest (p ∷ ps) h = (h.0.1, rest ps h.1)

delete_block-Frees : (p : Ptr) (m : Memory) → IsLive m p → Frees (p ∷ []) m (delete_block p m)
unfolding delete_block
delete_block-Frees p m (b, e) = (
  set m p none,
  rw (delete_block, e) refl,
  record {
    gone = (get_elem?-set_self m p none (get_elem?-lt m p e), tt);
    others = λ q h. get_elem?-set_other m p q none h.0;
  },
)

gone_after :
    (m m' : Memory) (gone ps : List Ptr)
    → ((q : Ptr) → NotIn q gone → get_elem? m' q ≡ get_elem? m q)
    → All (λ p. NotIn p gone) ps
    → All (λ p. get_elem? m p ≡ some none) ps
    → All (λ p. get_elem? m' p ≡ some none) ps
gone_after m m' gone [] same n h = tt
gone_after m m' gone (p ∷ ps) same n h = (same p n.0 ∙ h.0, gone_after m m' gone ps same n.1 h.1)

NotIn-append : (q : Ptr) (ps qs : List Ptr) → NotIn q (ps ++ qs) → NotIn q ps × NotIn q qs
NotIn-append q [] qs h = (tt, h)
NotIn-append q (p ∷ ps) qs h = let (a, b) = NotIn-append q ps qs h.1 in ((h.0, a), b)

-- One call behind another, on other blocks.
pub Frees-bind :
    (ps qs : List Ptr) (m : Memory) (r : Option Memory) (k : Memory → Option Memory)
    → All (λ p. NotIn p qs) ps
    → Frees ps m r
    → ((m' : Memory) → AreFreed ps m m' → Frees qs m' (k m'))
    → Frees (ps ++ qs) m (r >>= k)
Frees-bind ps qs m r k apart (m', e, f) h =
    let (m'', e', f') = h m' f in
    (
      m'',
      rw e e',
      record {
        gone = All-append _ ps qs (gone_after m' m'' qs ps f'.others apart f.gone) f'.gone;
        others = λ q n. let (a, b) = NotIn-append q ps qs n in f'.others q b ∙ f.others q a;
      },
    )

pub delete_strings-Frees :
    (ps : List Ptr) (m : Memory)
    → AreDistinct ps
    → All (IsLive m) ps
    → Frees ps m (delete_strings ps m)
unfolding delete_strings
delete_strings-Frees [] m d l = (m, refl, record { gone = tt; others = λ q h. refl })
delete_strings-Frees (p ∷ ps) m d (l, ls) =
    Frees-bind (p ∷ []) ps m (delete_block p m) (delete_strings ps) (d.0, tt)
      (delete_block-Frees p m l)
      λ m' f.
        delete_strings-Frees ps m' d.1
          (AreLive-others m m' (p ∷ []) ps f.others (All-NotIn-sym (p ∷ []) ps (d.0, tt)) ls)

-- The strings and then the array.
pub delete_both-Frees :
    (ps : List Ptr) (p : Ptr) (m : Memory)
    → AreDistinct ps
    → All (λ q. NotIn q (p ∷ [])) ps
    → All (IsLive m) ps
    → IsLive m p
    → Frees (ps ++ (p ∷ [])) m (delete_strings ps m >>= delete_block p)
delete_both-Frees ps p m d n ls l =
    Frees-bind ps (p ∷ []) m (delete_strings ps m) (delete_block p) n
      (delete_strings-Frees ps m d ls)
      λ m' f.
        delete_block-Frees p m'
          (AreLive-others m m' ps (p ∷ []) f.others (All-NotIn-sym ps (p ∷ []) n) (l, tt)).0
