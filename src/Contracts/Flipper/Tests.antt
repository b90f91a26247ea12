-- ===== src/Contracts/Flipper/Tests.antt =====
-- Calls of the contract as runs, and an instance of the theorem.
use crain.Prelude.{◌≡◌, refl, true, false, List, [], ◌∷◌}
use crain.Contracts.Flipper.{Message, flip_it, get_it, new, default, flip, get, run}
use crain.Contracts.Flipper.Runs.{flips, flipped, seen, run_lem}

abbrev calls : List Message
calls = get_it ∷ flip_it ∷ get_it ∷ flip_it ∷ flip_it ∷ get_it ∷ []

-- The tests `default_works` and `it_works` in one run.
replies : (run calls default).0 ≡ false ∷ true ∷ true ∷ []
unfolding run default new flip get
replies = refl

run_lem_example :
    let (values, s') = run calls (new false) in
    (values ≡ seen 0 calls false) × (get s' ≡ flipped (flips calls) false)
run_lem_example = run_lem calls false
