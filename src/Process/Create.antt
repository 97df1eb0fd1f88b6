-- ===== src/Process/Create.antt =====
-- The constructor of Process, src/process.cpp, seen by the trace.
use renzoku.Prelude.{pos, true, false, some, ◌≡◌, [], ◌∷◌, ◌++◌, length, Bool, List}
use renzoku.Text.{Text}
use renzoku.World.{Os, World, done}
use renzoku.World.Traces.{Traces, Traces-new, new_lem}
use renzoku.Process.{new_from_array}

pub Traces-new_from_array :
    (os : Os) (command : List Text) (in_path : Bool)
    → Traces (λ p es. Unit {0}) (new_from_array os command in_path)
unfolding new_from_array
Traces-new_from_array os command in_path = Traces-new _ (λ p. tt)

pub new_from_array_lem :
    (os : Os) (command : List Text) (in_path : Bool) (w : World os)
    → new_from_array os command in_path w
      ≡ done (length w.heap) (record w {
        heap =
            w.heap
            ++ (some (record {
              proc = pos 0;
              search_in_path = in_path;
              generated_command = false;
              enabled = true;
              command = command;
            })
                ∷ []);
      })
unfolding new_from_array
new_from_array_lem os command in_path w = new_lem _ w
