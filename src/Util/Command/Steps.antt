-- ===== src/Util/Command/Steps.antt =====
-- One round of the scan, at a cursor that is given by the parts of the command around it.
use renzoku.Prelude.{
  ℕ, ◌+◌, ◌≤◌, ◌<◌, ◌≡◌, refl, Bool, true, false, some, List, [], ◌∷◌, ◌++◌, arith, leb, ltb,
  length, get_elem?, drop, length-append, append_assoc, take-append_length, drop-append_length,
}
use renzoku.Text.{Text, size_mod, npos, add_size, substr, substr_from}
use renzoku.Util.Command.{Scan, again, finished, cut, switch, advance, round}
use renzoku.Util.Command.Words.{quoting, separates}

pub advance_again :
    (command : Text) (s : Scan)
    → s.position + s.tmppos + 1 < length command
    → length command < npos
    → advance command s ≡ some (again (record s { tmppos = s.tmppos + 1 }))
unfolding advance
advance_again command s h k = ground arith

pub advance_end :
    (command : Text) (s : Scan)
    → length command ≤ s.position + s.tmppos + 1
    → s.position + s.tmppos + 1 < size_mod
    → s.position ≤ length command
    → advance command s ≡ some (finished (s.args ++ (drop s.position command ∷ [])))
unfolding advance substr_from
advance_end command s h k p = ground arith

-- The scan's variables where `done` lies before the argument and `cur` before the cursor.
abbrev pub cursor : Text → Text → Bool → List Text → Scan
cursor done cur q args = record {
  position = length done;
  tmppos = length cur;
  in_quote = q;
  args = args;
}

pub switch_keep :
    (command : Text) (c : ℕ) (s : Scan)
    → separates s.in_quote c ≡ false
    → switch command c s ≡ some (record s { in_quote = quoting s.in_quote c })
unfolding switch
switch_keep command c s h = ground arith

pub switch-cut :
    (command : Text) (c : ℕ) (s : Scan)
    → separates s.in_quote c ≡ true
    → switch command c s ≡ cut command s
unfolding switch
switch-cut command c s h = ground arith

pub get_elem?-cursor :
    (front : Text) (c : ℕ) (rest : Text) → get_elem? (front ++ c ∷ rest) (length front) ≡ some c
get_elem?-cursor [] c rest = refl
get_elem?-cursor (x ∷ front) c rest = get_elem?-cursor front c rest

pub cut_lem :
    (done cur rest : Text) (q : Bool) (args : List Text)
    → length (done ++ (cur ++ rest)) < npos
    → cut (done ++ (cur ++ rest)) (cursor done cur q args)
      ≡ some (record {
        position = length done + length cur + 1;
        tmppos = 0;
        in_quote = q;
        args = args ++ (cur ∷ []);
      })
unfolding cut substr
cut_lem done cur rest q args k =
    let total = length-append done (cur ++ rest) in
    let inner = length-append cur rest in
    let fits : leb (length done) (length (done ++ (cur ++ rest))) ≡ true = ground (arith, total) in
    let next : add_size (length done) (add_size (length cur) 1) ≡ length done + length cur + 1 =
      omega (arith, total, inner) in
    rw (next, fits, drop-append_length done (cur ++ rest), take-append_length cur rest)

-- The round up to its `switch`.
pub round_lem :
    (done cur : Text) (c : ℕ) (rest : Text) (q : Bool) (args : List Text) {t : Scan}
    → length (done ++ (cur ++ c ∷ rest)) < npos
    → switch (done ++ (cur ++ c ∷ rest)) c (cursor done cur q args) ≡ some t
    → round (done ++ (cur ++ c ∷ rest)) (cursor done cur q args)
      ≡ advance (done ++ (cur ++ c ∷ rest)) t
unfolding round
round_lem done cur c rest q args k h =
    let total = length-append done (cur ++ c ∷ rest) in
    let inner = length-append cur (c ∷ rest) in
    let inside : ltb (length done) (length (done ++ (cur ++ c ∷ rest))) ≡ true =
      ground (arith, total, inner) in
    let spot : add_size (length done) (length cur) ≡ length (done ++ cur) =
      omega (arith, total, inner, length-append done cur) in
    let read : get_elem? (done ++ (cur ++ c ∷ rest)) (length (done ++ cur)) ≡ some c =
      rw (← append_assoc done cur (c ∷ rest)) (get_elem?-cursor (done ++ cur) c rest) in
    rw (inside, spot, read, h)
