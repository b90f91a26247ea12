-- ===== src/Node/Benchmark/Period.antt =====
-- The period of node/src/command_helper.rs is the largest power of two below `BlockHashCount`.
use crain.Prelude.{
  ℕ, zero, suc, ◌*◌, ◌^◌, ◌≤◌, ◌<◌, ◌≡◌, ap, Bool-cases, inl, inr, leb, leb→le, leb_false→lt, some,
  arith,
}
use crain.Node.Benchmark.{next_power, checked_next_power_of_two, period_for}

double : (power k : ℕ) → power * 2 ^ suc k ≡ 2 * power * 2 ^ k
double power k = grind arith

-- The search finds the least power that is no less, if one of its rounds reaches it.
next_power_least :
    (rounds power n : ℕ)
    → power < 2 * n
    → 2 * n ≤ power * 2 ^ rounds
    → (k : ℕ) × (next_power rounds power n ≡ some (power * 2 ^ k))
      × (n ≤ power * 2 ^ k)
      × (power * 2 ^ k < 2 * n)
unfolding next_power
next_power_least zero power n l h = absurd (omega arith)
next_power_least (suc rounds) power n l h = elim (Bool-cases (leb n power)) [
  | inl e ↦ (0, rw e (ap some (omega arith)), omega (arith, leb→le _ _ e), omega arith)
  | inr e ↦
      let (k, found, enough, least) =
        next_power_least rounds (2 * power) n (omega (arith, leb_false→lt _ _ e))
          (omega (arith, double power rounds)) in
      (
        suc k,
        rw (e, double power k) found,
        omega (arith, double power k),
        omega (arith, double power k),
      )
]

halved :
    (count k : ℕ)
    → checked_next_power_of_two count ≡ some (2 ^ k)
    → 2 ≤ count
    → count ≤ 2 ^ k
    → 2 ^ k < 2 * count
    → (j : ℕ) × (period_for count ≡ 2 ^ j) × (2 ^ j < count) × (count ≤ 2 * 2 ^ j)
unfolding period_for
halved count zero e l h r = absurd (omega arith)
halved count (suc k) e l h r = (k, rw (period_for, e) (omega arith), omega arith, omega arith)

-- For every count of two or more whose next power of two is a u32, the period is the power of two
-- that is below the count and at least half of it.
period_for_lem :
    (count : ℕ)
    → 2 ≤ count
    → count ≤ 2 ^ 31
    → (k : ℕ) × (period_for count ≡ 2 ^ k) × (2 ^ k < count) × (count ≤ 2 * 2 ^ k)
unfolding checked_next_power_of_two
period_for_lem count l h =
    let (k, found, enough, least) = next_power_least 32 1 count (omega arith) (omega arith) in
    halved count k (rw found (ap some (omega arith))) l (omega arith) (omega arith)
