-- ===== src/Chain/Tests.antt =====
-- A chain of a few blocks, a long gap, and an instance of the theorem.
use crain.Prelude.{
  ◌-◌, ◌+◌, ◌*◌, ◌≤◌, ◌<◌, ◌≡◌, ◌⊎◌, refl, [], ◌∷◌, ◌++◌, replicate, none, some, done, arith,
}
use crain.Prelude.Machine.{checked}
use crain.Primitives.{block_time}
use crain.Difficulty.{Storage, on_timestamp_set}
use crain.Difficulty.Formula.{IsValid}
use crain.Chain.History.{History, difficulty_of}
use crain.Chain.Direction.{mean, on_timestamp_set_direction}

-- The second block comes a minute after the first, and the third an hour after the second.
abbrev three : History
three =
    record { difficulty = 1000; timestamp = 1000000 }
    ∷ record { difficulty = 1000; timestamp = 1060000 }
    ∷ record { difficulty = 1005; timestamp = 4660000 }
    ∷ []

difficulty_of-three : difficulty_of block_time 1000 three ≡ 756
difficulty_of-three = refl

-- One block is stored, and the next one comes four hours after it.
abbrev waiting : Storage
waiting = record {
  past_difficulties_and_timestamps =
      replicate 59 none ++ (some (record { difficulty = 1000; timestamp = 0 }) ∷ []);
  current_difficulty = 1000;
  initial_difficulty = 1000;
}

waiting-IsValid : IsValid waiting
waiting-IsValid = record {
  full = refl;
  entries = omega arith;
  current_capped = omega arith;
  initial_capped = omega arith;
}

on_timestamp_set_direction_example :
    let m = mean (58 * 1000 + (1000 + 1000)) in
    let time = 58 * block_time + (14_400_000 - 0) in
    (s' : Storage) × (on_timestamp_set checked block_time 14_400_000 waiting ≡ done s')
    × ((time < 60 * block_time) × (m ≤ s'.current_difficulty)
        ⊎ (time ≡ 60 * block_time) × (s'.current_difficulty ≡ m)
        ⊎ (60 * block_time < time) × (s'.current_difficulty ≤ m))
on_timestamp_set_direction_example =
    on_timestamp_set_direction checked block_time 14_400_000 58 none
      (record { difficulty = 1000; timestamp = 0 } ∷ []) (omega arith) (omega arith) waiting-IsValid
      refl (omega arith, tt)
