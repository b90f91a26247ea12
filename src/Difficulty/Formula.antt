-- ===== src/Difficulty/Formula.antt =====
-- The specification of `on_timestamp_set` of pallets/difficulty/src/lib.rs: what storage is valid,
-- and what a call makes of it, as a formula with exact numbers.
use crain.Prelude.{
  ℕ, ◌+◌, ◌-◌, ◌*◌, ◌/◌, ◌≤◌, ◌<◌, ◌≡◌, min, max, [], ◌∷◌, ◌++◌, Option, none, some, arith, length,
  length-append, drop, All, All-append,
}
use crain.Prelude.Machine.{u64_mod}
use crain.Primitives.{
  difficulty_adjust_window, clamp_factor, difficulty_damp_factor, min_difficulty, max_difficulty,
}
use crain.Difficulty.Entries.{DifficultyAndTimestamp, Window, Storage, delta, entry_difficulty}
use crain.Difficulty.Loops.{elapsed, total_difficulty}

-- An entry that the array may hold: timestamps are u64, and no difficulty exceeds the maximum.
abbrev pub IsEntry : Option DifficultyAndTimestamp → Type 0
IsEntry none = Unit
IsEntry (some d) = (d.difficulty ≤ max_difficulty) × (d.timestamp < u64_mod)

pub record IsValid (s : Storage) : Type 0 where
  pub full : length s.past_difficulties_and_timestamps ≡ difficulty_adjust_window
  pub entries : All IsEntry s.past_difficulties_and_timestamps
  pub current_capped : s.current_difficulty ≤ max_difficulty
  pub initial_capped : s.initial_difficulty ≤ max_difficulty

-- A valid target block time: a positive u64, in milliseconds.
abbrev pub IsBlockTime : ℕ → Type 0
IsBlockTime block_time = (0 < block_time) × (block_time < u64_mod)

-- The time span that the sums are scaled by: two thirds of the target window, a third of what
-- was measured, and kept within a factor of two of the target window.
abbrev pub adjusted_span : ℕ → ℕ → ℕ
adjusted_span goal measured = max (goal / clamp_factor) (
    min ((measured + (difficulty_damp_factor - 1) * goal) / difficulty_damp_factor)
      (goal * clamp_factor))

-- The specification of the difficulty, from the two sums.
abbrev pub difficulty_for : ℕ → ℕ → ℕ → ℕ
difficulty_for block_time measured sum = min max_difficulty (
    max min_difficulty (
      max min_difficulty sum
      * block_time
      / adjusted_span (difficulty_adjust_window * block_time) (max 1 measured)))

pub elapsed-le :
    (block_time : ℕ) (w : Window)
    → block_time < u64_mod
    → All IsEntry w
    → elapsed block_time w ≤ length w * u64_mod
unfolding delta
elapsed-le block_time [] h v = omega arith
elapsed-le block_time (x ∷ []) h v = omega arith
elapsed-le block_time (x ∷ y ∷ w) h v =
    omega (arith, delta-lt x y v.0 v.1.0, elapsed-le block_time (y ∷ w) h v.1)
  where
    delta-lt :
        (p q : Option DifficultyAndTimestamp)
        → IsEntry p
        → IsEntry q
        → delta block_time p q < u64_mod
    delta-lt none q hp hq = h
    delta-lt (some p) none hp hq = h
    delta-lt (some p) (some q) hp hq = omega arith

pub total_difficulty-le :
    (initial : ℕ) (w : Window)
    → initial ≤ max_difficulty
    → All IsEntry w
    → total_difficulty initial w ≤ length w * max_difficulty
unfolding entry_difficulty
total_difficulty-le initial [] h v = omega arith
total_difficulty-le initial (none ∷ w) h v = omega (arith, total_difficulty-le initial w h v.1)
total_difficulty-le initial (some d ∷ w) h v = omega (arith, total_difficulty-le initial w h v.1)

-- The array after a call: the oldest entry is gone, and the new one stands at the end.
abbrev pub pushed : ℕ → Storage → Window
pushed now s =
    drop 1 s.past_difficulties_and_timestamps
    ++ (some (record { difficulty = s.current_difficulty; timestamp = now }) ∷ [])

-- The storage after a call, as a formula.
abbrev pub retargeted : ℕ → ℕ → Storage → Storage
retargeted block_time now s = record s {
  past_difficulties_and_timestamps = pushed now s;
  current_difficulty =
      difficulty_for block_time (elapsed block_time (pushed now s))
        (total_difficulty s.initial_difficulty (pushed now s));
}

-- The array stays full, and its entries stay in range.
pub pushed-IsWindow :
    {s : Storage} (now : ℕ)
    → now < u64_mod
    → IsValid s
    → (length (pushed now s) ≡ difficulty_adjust_window) × All IsEntry (pushed now s)
pushed-IsWindow {s} now h v = go s.past_difficulties_and_timestamps v.full v.entries
  where
    new : Option DifficultyAndTimestamp
    new = some (record { difficulty = s.current_difficulty; timestamp = now })

    go :
        (past : Window)
        → length past ≡ difficulty_adjust_window
        → All IsEntry past
        → (length (drop 1 past ++ (new ∷ [])) ≡ difficulty_adjust_window)
          × All IsEntry (drop 1 past ++ (new ∷ []))
    go [] e a = absurd (omega arith)
    go (x ∷ rest) e a = (
      omega (arith, length-append rest (new ∷ [])),
      All-append IsEntry rest (new ∷ []) a.1 ((v.current_capped, h), tt),
    )
