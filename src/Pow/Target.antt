-- ===== src/Pow/Target.antt =====
-- `hash_meets_difficulty` of pow/src/lib.rs is a threshold on the hash.
use native.Mathlib.Nat.{le-div_iff_mul-le}
use crain.Prelude.{ℕ, ◌-◌, ◌*◌, ◌/◌, ◌≤◌, ◌<◌, ◌≡◌, ◌↔◌, true, arith}
use crain.Prelude.Machine.{u256_mod}
use crain.Pow.Crypto.{Crypto}
use crain.Pow.Algorithm.{hash_meets_difficulty}

module _ (c : Crypto) where
  open c use {H256, to_u256}

  pub meets_iff :
      (h : H256) (d : ℕ) → (hash_meets_difficulty c h d ≡ true) ↔ (to_u256 h * d < u256_mod)
  unfolding hash_meets_difficulty
  meets_iff h d = ground arith

  -- For a positive difficulty, a hash meets it exactly when it is at most the quotient of the
  -- largest U256 by the difficulty.
  pub hash_meets_difficulty_iff :
      (h : H256) (d : ℕ)
      → 0 < d
      → (hash_meets_difficulty c h d ≡ true) ↔ (to_u256 h ≤ (u256_mod - 1) / d)
  hash_meets_difficulty_iff h d p = (
    λ m. (le-div_iff_mul-le p).1 (omega (arith, (meets_iff h d).0 m)),
    λ l. (meets_iff h d).1 (omega (arith, (le-div_iff_mul-le p).0 l)),
  )

  -- A hash that meets a difficulty meets every lower one, and so does every smaller hash; every
  -- hash meets the difficulties 0 and 1.
  hash_meets_difficulty_mono :
      (h h' : H256) (d d' : ℕ)
      → to_u256 h' ≤ to_u256 h
      → d' ≤ d
      → hash_meets_difficulty c h d ≡ true
      → (hash_meets_difficulty c h' d' ≡ true)
        × (hash_meets_difficulty c h 0 ≡ true)
        × (hash_meets_difficulty c h 1 ≡ true)
  hash_meets_difficulty_mono h h' d d' p q m = (
    (meets_iff h' d').1 (smaller ((meets_iff h d).0 m)),
    (meets_iff h 0).1 (omega arith),
    (meets_iff h 1).1 (omega (arith, c.to_u256_lt h)),
  )
    where
      smaller : to_u256 h * d < u256_mod → to_u256 h' * d' < u256_mod
      smaller m = grind arith
