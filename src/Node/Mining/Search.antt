-- ===== src/Node/Mining/Search.antt =====
-- The mining thread of node/src/service.rs submits only seals that verify, and finds one.
use crain.Prelude.{
  ℕ, zero, suc, ◌+◌, ◌-◌, ◌<◌, ◌≡◌, refl, ◌⊎◌, inl, inr, true, false, Bool-cases, ◌==◌,
  if◌then◌else◌, List, [], ◌∷◌, Option, none, some, arith, All, ok,
}
use crain.Prelude.Machine.{saturating_add}
use crain.Pow.Crypto.{Crypto}
use crain.Pow.{hash_meets_difficulty, compute, verify}
use crain.Pow.Target.{meets_iff}
use crain.Pow.Verify.{IsSealed, verify-encode}
use crain.Node.Mining.{
  max_nonce, Action, submit, working, sleep, Metadata, attempt, mine_step, mine, first_submission,
}

module _ (c : Crypto) where
  open c use {H256, to_u256, encode_seal}

  -- The nonce solves the block: its work meets the difficulty.
  abbrev pub Solves : Metadata H256 → ℕ → Type 0
  Solves m nonce = hash_meets_difficulty c (attempt c m nonce).work m.difficulty ≡ true

  attempt-IsSealed :
      (m : Metadata H256) (nonce : ℕ)
      → Solves m nonce
      → IsSealed c m.pre_hash m.difficulty (attempt c m nonce)
  unfolding attempt compute
  attempt-IsSealed m nonce h = record {
    claims = refl;
    works = refl;
    meets = (meets_iff c (attempt c m nonce).work m.difficulty).0 h;
  }

  attempt-verify :
      {E : Type 0} (m : Metadata H256) (nonce : ℕ)
      → Solves m nonce
      → verify c {E = E} m.pre_hash (encode_seal (attempt c m nonce)) m.difficulty ≡ ok true
  attempt-verify m nonce h =
      verify-encode c m.pre_hash m.difficulty (attempt c m nonce) (attempt-IsSealed m nonce h)

  -- A round on a block, by whether the nonce solves it.
  mine_step-solved :
      (m : Metadata H256) (nonce : ℕ)
      → Solves m nonce
      → mine_step c (some m) nonce ≡ (submit (encode_seal (attempt c m nonce)), 0)
  unfolding mine_step attempt compute
  mine_step-solved m nonce h = rw h

  mine_step-unsolved :
      (m : Metadata H256) (nonce : ℕ)
      → nonce < max_nonce
      → hash_meets_difficulty c (attempt c m nonce).work m.difficulty ≡ false
      → mine_step c (some m) nonce ≡ (working, (if nonce + 1 == max_nonce then 0 else nonce + 1))
  unfolding mine_step attempt compute saturating_add
  mine_step-unsolved m nonce l h = rw h (ground arith)

  pub mine_step_cases :
      (m : Metadata H256) (nonce : ℕ)
      → nonce < max_nonce
      → ((mine_step c (some m) nonce ≡ (submit (encode_seal (attempt c m nonce)), 0))
          × Solves m nonce)
        ⊎ (mine_step c (some m) nonce
            ≡ (working, (if nonce + 1 == max_nonce then 0 else nonce + 1)))
  mine_step_cases m nonce l =
      elim (Bool-cases (hash_meets_difficulty c (attempt c m nonce).work m.difficulty)) [
        | inl h ↦ inl (mine_step-solved m nonce h, h)
        | inr h ↦ inr (mine_step-unsolved m nonce l h)
      ]

  -- What a round may do: without a block it sleeps, and on a block it works or submits a seal that
  -- `verify` accepts for that block.
  abbrev pub IsSound : Type 0 → Option (Metadata H256) × Action → Type 0
  IsSound E (none, sleep) = Unit
  IsSound E (none, working) = ⊥
  IsSound E (none, submit seal) = ⊥
  IsSound E (some m, sleep) = ⊥
  IsSound E (some m, working) = Unit
  IsSound E (some m, submit seal) = verify c {E = E} m.pre_hash seal m.difficulty ≡ ok true

  mine_step-IsSound :
      (E : Type 0) (o : Option (Metadata H256)) (nonce : ℕ)
      → nonce < max_nonce
      → IsSound E (o, (mine_step c o nonce).0) × ((mine_step c o nonce).1 < max_nonce)
  unfolding mine_step
  mine_step-IsSound E none nonce l = (tt, l)
  mine_step-IsSound E (some m) nonce l = elim (mine_step_cases m nonce l) [
    | inl (e, h) ↦ rw e (attempt-verify m nonce h, omega arith)
    | inr e ↦ rw e (tt, ground arith)
  ]

  -- From a nonce below the maximum the thread submits, whatever blocks it is given, only seals
  -- that `verify` accepts for the block of their round; it sleeps exactly in the rounds without a
  -- block, and its nonce stays below the maximum.
  pub mine-IsSound :
      (E : Type 0) (rounds : List (Option (Metadata H256))) (nonce : ℕ)
      → nonce < max_nonce
      → All (IsSound E) (mine c rounds nonce).0 × ((mine c rounds nonce).1 < max_nonce)
  unfolding mine
  mine-IsSound E [] nonce l = (tt, l)
  mine-IsSound E (o ∷ rounds) nonce l =
      let (sound, below) = mine_step-IsSound E o nonce l in
      let (rest, last) = mine-IsSound E rounds (mine_step c o nonce).1 below in
      ((sound, rest), last)

  -- A submission within the rounds, of a seal that is accepted.
  abbrev pub Submits : Type 0 → ℕ → Metadata H256 → ℕ → Type 0
  Submits E rounds m nonce =
      (seal : List ℕ) × (first_submission c rounds m nonce ≡ some seal)
      × (verify c {E = E} m.pre_hash seal m.difficulty ≡ ok true)

  Submits-now :
      (E : Type 0) (rounds : ℕ) (m : Metadata H256) (nonce : ℕ)
      → Solves m nonce
      → Submits E (suc rounds) m nonce
  unfolding first_submission
  Submits-now E rounds m nonce h = (
    encode_seal (attempt c m nonce),
    rw (first_submission, mine_step-solved m nonce h),
    attempt-verify m nonce h,
  )

  Submits-later :
      (E : Type 0) (rounds : ℕ) (m : Metadata H256) (nonce next : ℕ)
      → mine_step c (some m) nonce ≡ (working, next)
      → Submits E rounds m next
      → Submits E (suc rounds) m nonce
  unfolding first_submission
  Submits-later E rounds m nonce next e (seal, found, accepted) =
      (seal, rw (first_submission, e, e) found, accepted)

  -- One round further on: it submits, or it goes on with the next nonce.
  Submits-step :
      (E : Type 0) (rounds : ℕ) (m : Metadata H256) (nonce next : ℕ)
      → nonce < max_nonce
      → (if nonce + 1 == max_nonce then 0 else nonce + 1) ≡ next
      → Submits E rounds m next
      → Submits E (suc rounds) m nonce
  Submits-step E rounds m nonce next l e later = elim (mine_step_cases m nonce l) [
    | inl (_, h) ↦ Submits-now E rounds m nonce h
    | inr s ↦ Submits-later E rounds m nonce next (rw (← e) s) later
  ]

  -- Up to a solution that lies ahead.
  Submits-ahead :
      (E : Type 0) (k rounds : ℕ) (m : Metadata H256) (nonce : ℕ)
      → nonce + k < max_nonce
      → Solves m (nonce + k)
      → k < rounds
      → Submits E rounds m nonce
  Submits-ahead E k zero m nonce l h r = absurd (omega arith)
  Submits-ahead E zero (suc rounds) m nonce l h r =
      Submits-now E rounds m nonce (let e : nonce ≡ nonce + 0 = omega arith in rw e h)
  Submits-ahead E (suc k) (suc rounds) m nonce l h r =
      Submits-step E rounds m nonce (nonce + 1) (omega arith) (ground arith) (
        Submits-ahead E k rounds m (nonce + 1) (omega arith)
          (let e : nonce + 1 + k ≡ nonce + suc k = omega arith in rw e h) (omega arith))

  -- Past the end of the nonces, which start anew.
  Submits-around :
      (E : Type 0) (left rounds : ℕ) (m : Metadata H256) (nonce n : ℕ)
      → nonce + left ≡ max_nonce
      → 0 < left
      → n < max_nonce
      → Solves m n
      → left + n < rounds
      → Submits E rounds m nonce
  Submits-around E zero rounds m nonce n e p l h r = absurd (omega arith)
  Submits-around E (suc left) zero m nonce n e p l h r = absurd (omega arith)
  Submits-around E (suc zero) (suc rounds) m nonce n e p l h r =
      Submits-step E rounds m nonce 0 (omega arith) (ground arith) (
        Submits-ahead E n rounds m 0 (omega arith) (let e' : 0 + n ≡ n = omega arith in rw e' h)
          (omega arith))
  Submits-around E (suc (suc left)) (suc rounds) m nonce n e p l h r =
      Submits-step E rounds m nonce (nonce + 1) (omega arith) (ground arith) (
        Submits-around E (suc left) rounds m (nonce + 1) n (omega arith) (omega arith) l h
          (omega arith))

  -- If any nonce below the maximum solves the block, the thread submits an accepted seal for it,
  -- from any nonce below the maximum, within the rounds up to the end of the nonces and on from 0
  -- to the solution.
  pub first_submission_found :
      (E : Type 0) (rounds : ℕ) (m : Metadata H256) (nonce n : ℕ)
      → nonce < max_nonce
      → n < max_nonce
      → Solves m n
      → max_nonce - nonce + n < rounds
      → Submits E rounds m nonce
  first_submission_found E rounds m nonce n l k h r =
      Submits-around E (max_nonce - nonce) rounds m nonce n (omega arith) (omega arith) k h r
