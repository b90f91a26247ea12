-- ===== src/Primitives.antt =====
-- primitives/src/lib.rs: the constants that tune the difficulty adjustment.
use crain.Prelude.{ℕ, ◌*◌, ◌/◌, ◌-◌, ◌^◌}

-- In seconds, and in milliseconds.
abbrev pub block_time_sec : ℕ
block_time_sec = 60

abbrev pub block_time : ℕ
block_time = block_time_sec * 1000

abbrev pub hour_height : ℕ
hour_height = 3600 / block_time_sec

abbrev pub day_height : ℕ
day_height = 24 * hour_height

abbrev pub week_height : ℕ
week_height = 7 * day_height

abbrev pub year_height : ℕ
year_height = 52 * week_height

abbrev pub difficulty_adjust_window : ℕ
difficulty_adjust_window = hour_height

abbrev pub clamp_factor : ℕ
clamp_factor = 2

abbrev pub difficulty_damp_factor : ℕ
difficulty_damp_factor = 3

abbrev pub min_difficulty : ℕ
min_difficulty = difficulty_damp_factor

-- `u128::max_value()`
abbrev pub max_difficulty : ℕ
max_difficulty = 2 ^ 128 - 1
