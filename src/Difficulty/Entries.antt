-- ===== src/Difficulty/Entries.antt =====
-- The storage of the pallet, and the loops of `on_timestamp_set` over the array
-- `PastDifficultiesAndTimestamps`. An index past the end panics.
use crain.Prelude.{
  ℕ, zero, suc, ◌-◌, List, [], ◌∷◌, Option, none, some, Outcome, done, panic, ◌>>=◌,
}
use crain.Prelude.Machine.{Build, add, u128_mod, u256_mod, checked}

-- A `Difficulty` is a U256.
pub record DifficultyAndTimestamp : Type 0 where
  pub difficulty : ℕ
  pub timestamp : ℕ

-- The array of 60 entries, from earliest to latest.
abbrev pub Window : Type 0
Window = List (Option DifficultyAndTimestamp)

pub record Storage : Type 0 where
  pub past_difficulties_and_timestamps : Window
  pub current_difficulty : ℕ
  pub initial_difficulty : ℕ

-- `data[i]`, and `data[i] = v`.
unfoldable pub index : Window → ℕ → Outcome (Option DifficultyAndTimestamp)
index [] i = panic
index (x ∷ data') zero = done x
index (x ∷ data') (suc i) = index data' i

unfoldable pub store : Window → ℕ → Option DifficultyAndTimestamp → Outcome Window
store [] i v = panic
store (x ∷ data') zero v = done (v ∷ data')
store (x ∷ data') (suc i) v = store data' i v >>= λ rest. done (x ∷ rest)

-- `for i in 1..data.len() { data[i - 1] = data[i]; }`, with the rounds left and `j = i - 1`.
unfoldable pub shift_loop : ℕ → ℕ → Window → Outcome Window
unfolding index store
shift_loop zero j data' = done data'
shift_loop (suc rounds) j data' = do
  entry ← index data' (suc j)
  moved ← store data' j entry
  shift_loop rounds (suc j) moved

-- The time between two entries; `saturating_sub` stops at 0, as `-` on ℕ does.
unfoldable pub delta : ℕ → Option DifficultyAndTimestamp → Option DifficultyAndTimestamp → ℕ
delta block_time (some prev) (some cur) = cur.timestamp - prev.timestamp
delta block_time none cur = block_time
delta block_time (some prev) none = block_time

-- The loop that adds up `ts_delta`, again with the rounds left and `j = i - 1`.
unfoldable pub delta_loop : Build → ℕ → ℕ → ℕ → Window → ℕ → Outcome ℕ
unfolding index
delta_loop b block_time zero j data' ts_delta = done ts_delta
delta_loop b block_time (suc rounds) j data' ts_delta = do
  prev ← index data' j
  cur ← index data' (suc j)
  sum ← add u128_mod b ts_delta (delta block_time prev cur)
  delta_loop b block_time rounds (suc j) data' sum

-- The difficulty that an entry counts with.
unfoldable pub entry_difficulty : ℕ → Option DifficultyAndTimestamp → ℕ
entry_difficulty initial none = initial
entry_difficulty initial (some d) = d.difficulty

-- The loop that adds up `diff_sum`, with the rounds left. U256 additions panic on overflow.
unfoldable pub diff_loop : ℕ → ℕ → ℕ → Window → ℕ → Outcome ℕ
unfolding index
diff_loop initial zero i data' diff_sum = done diff_sum
diff_loop initial (suc rounds) i data' diff_sum = do
  entry ← index data' i
  sum ← add u256_mod checked diff_sum (entry_difficulty initial entry)
  diff_loop initial rounds (suc i) data' sum
