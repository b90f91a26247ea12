-- ===== src/Difficulty/Totality.antt =====
-- `on_timestamp_set` of pallets/difficulty/src/lib.rs never panics on valid storage, in any build,
-- and stores what a plain formula says.
use crain.Prelude.{
  ℕ, suc, ◌+◌, ◌-◌, ◌*◌, ◌/◌, ◌≤◌, ◌<◌, ◌≡◌, ap, ◌∙◌, min, max, if◌then◌else◌, ltb, ◌==◌, [], ◌∷◌,
  ◌++◌, Option, done, arith, length, drop, All,
}
use crain.Prelude.Machine.{
  Build, checked, add-eq_of_lt, mul-eq_of_lt, sub-eq_of_le, div-eq_of_pos, u64_mod, u128_mod,
  u256_mod,
}
use crain.Primitives.{
  difficulty_adjust_window, clamp_factor, difficulty_damp_factor, min_difficulty, max_difficulty,
}
use crain.Difficulty.Entries.{
  DifficultyAndTimestamp, Window, Storage, shift_loop, delta_loop, diff_loop,
}
use crain.Difficulty.Retarget.{damp, clamp, next_difficulty, on_timestamp_set}
use crain.Difficulty.Loops.{
  elapsed, total_difficulty, last_of, shift_loop_lem, store_last, delta_loop_lem, diff_loop_lem,
}
use crain.Difficulty.Formula.{
  IsEntry, IsValid, IsBlockTime, adjusted_span, difficulty_for, elapsed-le, total_difficulty-le,
  pushed, retargeted, pushed-IsWindow,
}

product_lt : (x y a b : ℕ) → x ≤ a → y < b → 0 < a → x * y < a * b
product_lt x y a b h k p = grind arith

module _ (b : Build) where
  damp_lem :
      (actual goal : ℕ)
      → actual + 2 * goal < u128_mod
      → damp b actual goal difficulty_damp_factor ≡ done ((actual + 2 * goal) / 3)
  unfolding damp
  damp_lem actual goal h =
      rw
        (
          sub-eq_of_le u128_mod b 3 1 (omega arith) (omega arith),
          mul-eq_of_lt u128_mod b 2 goal (omega arith),
          add-eq_of_lt u128_mod b actual (2 * goal) h,
        )
        (div-eq_of_pos (actual + 2 * goal) 3 (omega arith))

  clamp_lem :
      (actual goal : ℕ)
      → goal * 2 < u128_mod
      → clamp b actual goal clamp_factor ≡ done (max (goal / 2) (min actual (goal * 2)))
  unfolding clamp
  clamp_lem actual goal h =
      rw (div-eq_of_pos goal 2 (omega arith), mul-eq_of_lt u128_mod b goal 2 h)

  -- The checked arithmetic of the last part computes the formula.
  pub next_difficulty_lem :
      (block_time measured sum : ℕ)
      → IsBlockTime block_time
      → measured ≤ 60 * u64_mod
      → sum ≤ 60 * max_difficulty
      → next_difficulty b block_time (difficulty_adjust_window * block_time) measured sum
        ≡ done (difficulty_for block_time measured sum)
  unfolding next_difficulty
  next_difficulty_lem block_time measured sum h m s =
      rw
        (
          guarded_measured,
          guarded_sum,
          damp_lem (max 1 measured) (60 * block_time) (omega arith),
          clamp_lem ((max 1 measured + 2 * (60 * block_time)) / 3) (60 * block_time) (omega arith),
          mul-eq_of_lt u256_mod checked (max min_difficulty sum) block_time fits,
        )
        (rw (div-eq_of_pos _ _ pos))
    where
      guarded_measured : (if measured == 0 then 1 else measured) ≡ max 1 measured
      guarded_measured = ground arith

      guarded_sum :
          (if ltb sum min_difficulty then min_difficulty else sum) ≡ max min_difficulty sum
      guarded_sum = ground arith

      fits : max min_difficulty sum * block_time < u256_mod
      fits = omega (
        arith,
        product_lt (max min_difficulty sum) block_time (60 * max_difficulty) u64_mod (omega arith)
            h.1 (omega arith),
      )

      pos : 0 < adjusted_span (60 * block_time) (max 1 measured)
      pos = omega arith

-- The three loops at the length that the array has.
shifted_full :
    (past : Window)
    → length past ≡ difficulty_adjust_window
    → (z : Option DifficultyAndTimestamp) × (shift_loop (length past - 1) 0 past
        ≡ done (drop 1 past ++ (z ∷ [])))
shifted_full [] e = absurd (omega arith)
shifted_full (x ∷ rest) e = (last_of x rest, rw (rounds) (shift_loop_lem x rest))
  where
    rounds : suc (length rest) - 1 ≡ length rest
    rounds = omega arith

delta_loop_full :
    (b : Build) (block_time : ℕ) (w : Window)
    → block_time < u64_mod
    → length w ≡ difficulty_adjust_window
    → All IsEntry w
    → delta_loop b block_time (difficulty_adjust_window - 1) 0 w 0 ≡ done (elapsed block_time w)
delta_loop_full b block_time [] h e a = absurd (omega arith)
delta_loop_full b block_time (x ∷ rest) h e a = rw (← rounds) (
    delta_loop_lem b block_time x rest 0 (omega (arith, elapsed-le block_time (x ∷ rest) h a))
    ∙ ap done (omega arith))
  where
    rounds : length rest ≡ 59
    rounds = omega arith

diff_loop_full :
    (initial : ℕ) (w : Window)
    → initial ≤ max_difficulty
    → length w ≡ difficulty_adjust_window
    → All IsEntry w
    → diff_loop initial difficulty_adjust_window 0 w 0 ≡ done (total_difficulty initial w)
diff_loop_full initial w h e a = rw (← e) (
    diff_loop_lem initial w 0 (omega (arith, total_difficulty-le initial w h a))
    ∙ ap done (omega arith))

-- On valid storage, with a u64 timestamp and a positive u64 block time, the call returns in every
-- build, and stores the shifted array and the difficulty of the formula.
pub on_timestamp_set_lem :
    (b : Build) (block_time now : ℕ) {s : Storage}
    → IsBlockTime block_time
    → now < u64_mod
    → IsValid s
    → on_timestamp_set b block_time now s ≡ done (retargeted block_time now s)
unfolding on_timestamp_set
on_timestamp_set_lem b block_time now {s} h k v = rw (
  mul-eq_of_lt u128_mod b 60 block_time (omega arith),
  shifted.1,
  store_last (drop 1 s.past_difficulties_and_timestamps) shifted.0 _,
  delta_loop_full b block_time (pushed now s) h.1 w.0 w.1,
  diff_loop_full s.initial_difficulty (pushed now s) v.initial_capped w.0 w.1,
  next_difficulty_lem b block_time _ _ h spans sums,
)
  where
    shifted :
        (z : Option DifficultyAndTimestamp) × (shift_loop
            (length s.past_difficulties_and_timestamps - 1)
            0
            s.past_difficulties_and_timestamps
          ≡ done (drop 1 s.past_difficulties_and_timestamps ++ (z ∷ [])))
    shifted = shifted_full s.past_difficulties_and_timestamps v.full

    w : (length (pushed now s) ≡ difficulty_adjust_window) × All IsEntry (pushed now s)
    w = pushed-IsWindow now k v

    spans : elapsed block_time (pushed now s) ≤ 60 * u64_mod
    spans = omega (arith, w.0, elapsed-le block_time (pushed now s) h.1 w.1)

    sums : total_difficulty s.initial_difficulty (pushed now s) ≤ 60 * max_difficulty
    sums =
        omega
          (arith, w.0, total_difficulty-le s.initial_difficulty (pushed now s) v.initial_capped w.1)
