-- ===== src/Difficulty/Retarget.antt =====
-- `damp`, `clamp`, the genesis build and `on_timestamp_set`.
use crain.Prelude.{
  ℕ, ◌-◌, min, max, if◌then◌else◌, ltb, ◌==◌, none, some, length, replicate, Outcome, done, ◌>>=◌,
}
use crain.Prelude.Machine.{Build, checked, add, sub, mul, div, u128_mod, u256_mod}
use crain.Primitives.{
  difficulty_adjust_window, clamp_factor, difficulty_damp_factor, min_difficulty, max_difficulty,
}
use crain.Difficulty.Entries.{Storage, store, shift_loop, delta_loop, diff_loop}

-- Move a value linearly toward a goal.
unfoldable pub damp : Build → ℕ → ℕ → ℕ → Outcome ℕ
damp b actual goal damp_factor = do
  less ← sub u128_mod b damp_factor 1
  weighted ← mul u128_mod b less goal
  sum ← add u128_mod b actual weighted
  div sum damp_factor

-- Limit a value to be within some factor from a goal.
unfoldable pub clamp : Build → ℕ → ℕ → ℕ → Outcome ℕ
clamp b actual goal clamp_factor = do
  low ← div goal clamp_factor
  high ← mul u128_mod b goal clamp_factor
  done (max low (min actual high))

-- The storage that `build` makes of the genesis configuration.
unfoldable pub genesis : ℕ → Storage
genesis initial_difficulty = record {
  past_difficulties_and_timestamps = replicate difficulty_adjust_window none;
  current_difficulty = initial_difficulty;
  initial_difficulty = initial_difficulty;
}

-- The difficulty that follows from the two sums, with the guards on both: `ts_delta` of 0 counts
-- as 1, and a sum of difficulties below the minimum as the minimum.
unfoldable pub next_difficulty : Build → ℕ → ℕ → ℕ → ℕ → Outcome ℕ
next_difficulty b block_time block_time_window ts_delta diff_sum = do
  let ts_delta' = if ts_delta == 0 then 1 else ts_delta
  let diff_sum' = if ltb diff_sum min_difficulty then min_difficulty else diff_sum
  damped ← damp b ts_delta' block_time_window difficulty_damp_factor
  adj_ts ← clamp b damped block_time_window clamp_factor
  scaled ← mul u256_mod checked diff_sum' block_time
  quotient ← div scaled adj_ts
  done (min max_difficulty (max min_difficulty quotient))

-- `on_timestamp_set`, with the configured target block time.
unfoldable pub on_timestamp_set : Build → ℕ → ℕ → Storage → Outcome Storage
on_timestamp_set b block_time now s = do
  block_time_window ← mul u128_mod b difficulty_adjust_window block_time
  let past = s.past_difficulties_and_timestamps
  shifted ← shift_loop (length past - 1) 0 past
  data' ←
      store shifted (length shifted - 1)
        (some (record { difficulty = s.current_difficulty; timestamp = now }))
  ts_delta ← delta_loop b block_time (difficulty_adjust_window - 1) 0 data' 0
  diff_sum ← diff_loop s.initial_difficulty difficulty_adjust_window 0 data' 0
  difficulty ← next_difficulty b block_time block_time_window ts_delta diff_sum
  done (record s { past_difficulties_and_timestamps = data'; current_difficulty = difficulty })
