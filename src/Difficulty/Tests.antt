-- ===== src/Difficulty/Tests.antt =====
-- Runs of the pallet at concrete inputs, and instances of its theorems.
use crain.Prelude.{
  ◌+◌, ◌/◌, ◌≤◌, ◌≡◌, refl, min, max, [], ◌∷◌, ◌++◌, map, some, none, replicate, done, panic,
  map_done, ◌^◌, arith, drop,
}
use crain.Prelude.Machine.{checked, wrapping, fit, add, sub, mul, div}
use crain.Primitives.{block_time, min_difficulty, max_difficulty}
use crain.Difficulty.Entries.{
  Window, Storage, shift_loop, store, delta, delta_loop, entry_difficulty, diff_loop,
}
use crain.Difficulty.Retarget.{damp, clamp, genesis, next_difficulty, on_timestamp_set}
use crain.Difficulty.Loops.{total_difficulty}
use crain.Difficulty.Formula.{IsValid, pushed, retargeted}
use crain.Difficulty.Totality.{on_timestamp_set_lem}
use crain.Difficulty.Response.{
  on_timestamp_set-IsValid, on_timestamp_set_rate, on_timestamp_set_antitone,
}
use crain.Difficulty.Drift.{schedule, on_target_climbs}
use crain.Difficulty.Stall.{gap_halves}
use crain.Difficulty.History.{stamps, run, genesis-IsValid, run_window}

-- The first block of a chain: every gap counts as one minute, so the sum spans 59 of them.
first_block :
    map_done
      (λ (s : Storage). s.current_difficulty)
      (on_timestamp_set checked block_time 1_000_000 (genesis 1000))
    ≡ done 1005
unfolding on_timestamp_set genesis damp clamp next_difficulty shift_loop store delta delta_loop
    entry_difficulty diff_loop fit add sub mul div
first_block = refl

-- A target of zero would divide by zero.
zero_target : on_timestamp_set checked 0 1_000_000 (genesis 1000) ≡ panic
unfolding on_timestamp_set genesis damp clamp next_difficulty shift_loop store delta delta_loop
    entry_difficulty diff_loop fit add sub mul div
zero_target = refl

-- A genesis difficulty near the end of the U256 range, which nothing forbids, stops the chain: the
-- sum of the sixty entries does not fit.
huge_initial : on_timestamp_set wrapping block_time 1_000_000 (genesis (2 ^ 255)) ≡ panic
unfolding on_timestamp_set genesis damp clamp next_difficulty shift_loop store delta delta_loop
    entry_difficulty diff_loop fit add sub mul div
huge_initial = refl

start-IsValid : IsValid (genesis 1000)
start-IsValid = genesis-IsValid 1000 (omega arith)

on_timestamp_set_lem_example :
    on_timestamp_set wrapping block_time 60_000 (genesis 1000)
    ≡ done (retargeted block_time 60_000 (genesis 1000))
on_timestamp_set_lem_example =
    on_timestamp_set_lem wrapping block_time 60_000 (omega arith) (omega arith) start-IsValid

on_timestamp_set-IsValid_example :
    (s' : Storage) × (on_timestamp_set checked block_time 60_000 (genesis 1000) ≡ done s')
    × IsValid s'
    × (min_difficulty ≤ s'.current_difficulty)
    × (s'.current_difficulty ≤ max_difficulty)
on_timestamp_set-IsValid_example =
    on_timestamp_set-IsValid checked block_time 60_000 (omega arith) (omega arith) start-IsValid

on_timestamp_set_rate_example :
    let sum = total_difficulty (genesis 1000).initial_difficulty (pushed 60_000 (genesis 1000)) in
    (s' : Storage) × (on_timestamp_set checked block_time 60_000 (genesis 1000) ≡ done s')
    × (sum / 120 ≤ s'.current_difficulty)
    × (s'.current_difficulty ≤ max min_difficulty (sum / 40))
on_timestamp_set_rate_example =
    on_timestamp_set_rate checked block_time 60_000 (omega arith) (omega arith) start-IsValid

on_timestamp_set_antitone_example :
    (early late : Storage) × (on_timestamp_set checked block_time 60_000 (genesis 1000)
      ≡ done early)
    × (on_timestamp_set checked block_time 90_000 (genesis 1000) ≡ done late)
    × (late.current_difficulty ≤ early.current_difficulty)
on_timestamp_set_antitone_example =
    on_timestamp_set_antitone checked block_time 60_000 90_000 (omega arith) (omega arith)
      (omega arith) start-IsValid

on_target_climbs_example :
    (s' : Storage) × (run checked block_time (schedule 1_000_000 601) (genesis 1000) ≡ done s')
    × (min max_difficulty (1000 + 600 / 60) ≤ s'.current_difficulty)
on_target_climbs_example =
    on_target_climbs checked 1000 1_000_000 600 (omega arith) (omega arith) (omega arith)

run_window_example :
    (s' : Storage) × (run wrapping block_time (60_000 ∷ 130_000 ∷ []) (genesis 1000) ≡ done s')
    × IsValid s'
    × (stamps s'.past_difficulties_and_timestamps
        ≡ drop 2 (
            stamps (genesis 1000).past_difficulties_and_timestamps
            ++ map some (60_000 ∷ 130_000 ∷ [])))
run_window_example =
    run_window wrapping block_time (60_000 ∷ 130_000 ∷ []) (omega arith) (omega arith) start-IsValid

-- One block so far, and then a gap of four hours.
abbrev one_block : Window
one_block = replicate 59 none ++ (some (record { difficulty = 1000; timestamp = 0 }) ∷ [])

abbrev waiting : Storage
waiting = record {
  past_difficulties_and_timestamps = one_block;
  current_difficulty = 1000;
  initial_difficulty = 1000;
}

waiting-IsValid : IsValid waiting
waiting-IsValid = record {
  full = refl;
  entries = omega arith;
  current_capped = omega arith;
  initial_capped = omega arith;
}

gap_halves_example :
    (s' : Storage) × (run checked block_time (14_400_000 ∷ 14_400_001 ∷ 5 ∷ []) waiting ≡ done s')
    × (s'.current_difficulty ≤ 1000 / 2)
unfolding entry_difficulty
gap_halves_example =
    gap_halves checked block_time 1000 (omega arith) (omega arith) 14_400_000 (14_400_001 ∷ 5 ∷ [])
      (replicate 59 none) (record { difficulty = 1000; timestamp = 0 }) waiting-IsValid
      (omega arith) (omega arith) refl (omega arith) (omega arith) (omega arith)
