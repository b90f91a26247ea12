-- ===== src/Chain/Live.antt =====
-- The chain goes on: what the mining thread of node/src/service.rs submits is a block's seal.
use crain.Prelude.{ℕ, ◌+◌, ◌-◌, ◌≤◌, ◌<◌, ◌≡◌, refl, ◌⊎◌, List, [], ◌∷◌, ◌++◌, some, ok, arith}
use crain.Prelude.Machine.{Build, u64_mod}
use crain.Primitives.{min_difficulty, max_difficulty}
use crain.Difficulty.Formula.{retargeted}
use crain.Difficulty.Totality.{on_timestamp_set_lem}
use crain.Pow.Crypto.{Crypto}
use crain.Runtime.{target_block_time, minimum_period, on_timestamp}
use crain.Node.Mining.{max_nonce, first_submission}
use crain.Node.Mining.Search.{Solves, first_submission_found}
use crain.Chain.{Block, Chain, asked_difficulty, extended, import_block, Reach, next}
use crain.Chain.Sound.{Reach-IsSound, asked-difficulty}

module _ (c : Crypto) (b : Build) where
  open c use {H256}

  -- A block with a seal for it, on top of a chain.
  abbrev pub sealed_block : Chain H256 → H256 → List ℕ → ℕ → Block H256
  sealed_block s pre_hash seal now = record {
    pre_hash = pre_hash;
    seal = seal;
    difficulty = s.storage.current_difficulty;
    timestamp = now;
  }

  -- On every chain that blocks have made from an initial difficulty within the bounds of the
  -- primitives, and for every block that some nonce below U256::MAX solves at the difficulty that
  -- the chain asks for: the mining thread, from any such nonce, submits a seal within the rounds up
  -- to the end of the nonces and on from 0 to the solution, and with it and a timestamp that the
  -- timestamp pallet accepts the block joins the chain, in every build.
  mined_block_joins :
      (initial : ℕ) {s : Chain H256} (parent pre_hash : H256) (rounds nonce n now : ℕ)
      → min_difficulty ≤ initial
      → initial ≤ max_difficulty
      → Reach c b initial s
      → nonce < max_nonce
      → n < max_nonce
      → Solves c (record { difficulty = s.storage.current_difficulty; pre_hash = pre_hash }) n
      → max_nonce - nonce + n < rounds
      → (s.now ≡ 0) ⊎ (s.now + minimum_period ≤ now)
      → now < u64_mod
      → (d : ℕ) × (seal : List ℕ) × (t : Chain H256) × (asked_difficulty c b s parent ≡ ok d)
        × (first_submission c rounds (record { difficulty = d; pre_hash = pre_hash }) nonce
            ≡ some seal)
        × Reach c b initial t
        × (t.blocks ≡ s.blocks ++ (sealed_block s pre_hash seal now ∷ []))
        × (t.now ≡ now)
  unfolding on_timestamp
  mined_block_joins initial {s} parent pre_hash rounds nonce n now l h r x y z enough later small =
      let v = Reach-IsSound c b initial l h r in
      let (seal, found, accepted) =
        first_submission_found c (Unit {0}) rounds
          (record { difficulty = s.storage.current_difficulty; pre_hash = pre_hash }) nonce n x y z
          enough in
      let storage = retargeted target_block_time now s.storage in
      let block = sealed_block s pre_hash seal now in
      (
        s.storage.current_difficulty,
        seal,
        extended c b block storage s,
        asked-difficulty c b s parent,
        found,
        next r (
            import_block parent block storage (asked-difficulty c b s parent) accepted later small
              (on_timestamp_set_lem b target_block_time now (omega arith) small v.held.valid) refl),
        refl,
        refl,
      )
