-- ===== src/Node/Mining.antt =====
-- The mining thread that `new_full` of node/src/service.rs spawns (lines 335 to 360), round by
-- round. What the worker's `metadata()` returns in a round is an input of that round.
pub mod Search
pub mod Halts
mod Tests
use crain.Prelude.{ℕ, zero, suc, ◌-◌, ◌==◌, if◌then◌else◌, List, [], ◌∷◌, Option, none, some}
use crain.Prelude.Machine.{u256_mod, saturating_add}
use crain.Pow.Crypto.{Seal, Compute, Crypto}
use crain.Pow.{hash_meets_difficulty, compute}

-- `U256::MAX`
abbrev pub max_nonce : ℕ
max_nonce = u256_mod - 1

-- What a round does besides its change of the nonce.
pub data Action : Type 0 where
  submit : List ℕ → Action
  working : Action
  sleep : Action

-- The fields of the worker's metadata that the thread reads.
pub record Metadata (H256 : Type 0) : Type 0 where
  pub difficulty : ℕ
  pub pre_hash : H256

module _ (c : Crypto) where
  open c use {H256, encode_seal}

  -- The seal that a nonce makes.
  unfoldable pub attempt : Metadata H256 → ℕ → Seal H256
  attempt metadata nonce =
      let difficulty = metadata.difficulty in
      compute c (record { difficulty = difficulty; pre_hash = metadata.pre_hash; nonce = nonce })

  -- One round: the action and the next nonce.
  unfoldable pub mine_step : Option (Metadata H256) → ℕ → Action × ℕ
  unfolding saturating_add
  mine_step none nonce = (sleep, nonce)
  mine_step (some metadata) nonce =
      let seal = attempt metadata nonce in
      if hash_meets_difficulty c seal.work seal.difficulty
      then (submit (encode_seal seal), 0)
      else (let next = saturating_add nonce 1 in
          if next == max_nonce then (working, 0) else (working, next))

  -- The rounds of a thread: what it does in each, with the metadata of that round, and the nonce
  -- at the end.
  unfoldable pub mine :
      List (Option (Metadata H256)) → ℕ → List (Option (Metadata H256) × Action) × ℕ
  mine [] nonce = ([], nonce)
  mine (metadata ∷ later) nonce =
      let (action, next) = mine_step metadata nonce in
      let (actions, last) = mine later next in ((metadata, action) ∷ actions, last)

  -- The first submission within so many rounds on the same metadata.
  unfoldable pub first_submission : ℕ → Metadata H256 → ℕ → Option (List ℕ)
  first_submission zero metadata nonce = none
  first_submission (suc rounds) metadata nonce =
      let (action, next) = mine_step (some metadata) nonce in
      elim action [
        | submit seal ↦ some seal
        | working ↦ first_submission rounds metadata next
        | sleep ↦ first_submission rounds metadata next
      ]
