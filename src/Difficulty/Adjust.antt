-- ===== src/Difficulty/Adjust.antt =====
-- The arithmetic of the difficulty formula of pallets/difficulty/src/lib.rs: ranges and order.
use native.Mathlib.Nat.{le-div_iff_mul-le, mul-div-mul_right}
use crain.Prelude.{ℕ, ◌*◌, ◌/◌, ◌≤◌, ◌<◌, max, arith}
use crain.Primitives.{min_difficulty, max_difficulty}
use crain.Difficulty.Formula.{adjusted_span, difficulty_for}

-- The span never leaves the range from two thirds of the target window to twice that window.
pub adjusted_span_bounds :
    (block_time measured : ℕ)
    → (40 * block_time ≤ adjusted_span (60 * block_time) measured)
      × (adjusted_span (60 * block_time) measured ≤ 120 * block_time)
adjusted_span_bounds block_time measured = omega arith

pub div-antitone : (n a b : ℕ) → 0 < a → a ≤ b → n / b ≤ n / a
div-antitone n a b p h = grind (arith, le-div_iff_mul-le)

div_mono : (m n a : ℕ) → 0 < a → m ≤ n → m / a ≤ n / a
div_mono m n a p h = grind (arith, le-div_iff_mul-le)

-- A quotient by a span between `k` and `l` block times.
pub scaled_bounds :
    (n k l block_time span : ℕ)
    → 0 < block_time
    → 0 < k
    → k * block_time ≤ span
    → span ≤ l * block_time
    → (n / l ≤ n * block_time / span) × (n * block_time / span ≤ n / k)
scaled_bounds n k l block_time span p q low high = (
  rw (← mul-div-mul_right n l p)
      (div-antitone (n * block_time) span (l * block_time) (grind arith) high),
  rw (← mul-div-mul_right n k p)
      (div-antitone (n * block_time) (k * block_time) span (grind arith) low),
)

-- A longer measured time never gives a higher difficulty.
pub difficulty_for-antitone :
    (block_time measured measured' sum : ℕ)
    → 0 < block_time
    → measured ≤ measured'
    → difficulty_for block_time measured' sum ≤ difficulty_for block_time measured sum
difficulty_for-antitone block_time measured measured' sum p h = omega (
  arith,
  div-antitone (max min_difficulty sum * block_time)
      (adjusted_span (60 * block_time) (max 1 measured))
      (adjusted_span (60 * block_time) (max 1 measured')) (omega arith) (omega arith),
)

-- Within a factor of 3/2 above and 1/2 below the average of sixty blocks.
pub difficulty_for_bounds :
    (block_time measured sum : ℕ)
    → 0 < block_time
    → sum ≤ 60 * max_difficulty
    → (sum / 120 ≤ difficulty_for block_time measured sum)
      × (difficulty_for block_time measured sum ≤ max min_difficulty (sum / 40))
difficulty_for_bounds block_time measured sum p h = omega (arith, range)
  where
    span : ℕ
    span = adjusted_span (60 * block_time) (max 1 measured)

    range :
        (max min_difficulty sum / 120 ≤ max min_difficulty sum * block_time / span)
        × (max min_difficulty sum * block_time / span ≤ max min_difficulty sum / 40)
    range =
        scaled_bounds (max min_difficulty sum) 40 120 block_time span p (omega arith)
          (adjusted_span_bounds block_time (max 1 measured)).0
          (adjusted_span_bounds block_time (max 1 measured)).1

-- A span of four target windows or more counts as two of them: the difficulty is then half of the
-- average.
pub difficulty_for_slow :
    (block_time measured sum : ℕ)
    → 0 < block_time
    → 240 * block_time ≤ measured
    → difficulty_for block_time measured sum ≤ max min_difficulty (max min_difficulty sum / 120)
difficulty_for_slow block_time measured sum p h = omega (
  arith,
  scaled_bounds (max min_difficulty sum) 120 120 block_time
      (adjusted_span (60 * block_time) (max 1 measured)) p (omega arith) (omega arith)
      (omega arith),
)
