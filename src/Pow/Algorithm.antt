-- ===== src/Pow/Algorithm.antt =====
-- The functions of pow/src/lib.rs.
use crain.Prelude.{
  ℕ, Bool, true, false, not, ◌&&◌, ◌==◌, ltb, if◌then◌else◌, List, [], ◌∷◌, Option, none, some,
  Result, ok, err,
}
use crain.Prelude.Machine.{overflowing_mul}
use crain.Pow.Crypto.{Seal, Compute, Crypto}

-- `PowError`: the one variant that the code makes, with what the runtime call reported.
pub data PowError (E : Type 0) : Type 0 where
  environment : E → PowError E

-- The algorithm, over the client that it asks for the difficulty.
pub record Sha3Algorithm (C : Type 0) : Type 0 where
  pub client : C

unfoldable pub new : {C : Type 0} → C → Sha3Algorithm C
new client = record { client = client }

-- The client is shared.
unfoldable pub clone : {C : Type 0} → Sha3Algorithm C → Sha3Algorithm C
clone self = new self.client

-- `>` on byte arrays: the first difference decides.
unfoldable pub bytes_gt : List ℕ → List ℕ → Bool
bytes_gt [] ys = false
bytes_gt (x ∷ xs) [] = true
bytes_gt (x ∷ xs) (y ∷ ys) = if ltb y x then true else (if x == y then bytes_gt xs ys else false)

module _ (c : Crypto) where
  open c use {
    H256, to_u256, h256_eq, sha3_256, encode_compute, encode_seal, decode_seal, blake2_256,
  }

  -- The product of hash and difficulty must fit in a U256.
  unfoldable pub hash_meets_difficulty : H256 → ℕ → Bool
  unfolding overflowing_mul
  hash_meets_difficulty hash difficulty =
      let (_, overflowed) = overflowing_mul (to_u256 hash) difficulty in not overflowed

  unfoldable pub compute : Compute H256 → Seal H256
  compute self =
      let work : H256 = sha3_256 (encode_compute self) in
      record { difficulty = self.difficulty; work = work; nonce = self.nonce }

  -- The derived `==` of seals.
  unfoldable pub seal_eq : Seal H256 → Seal H256 → Bool
  seal_eq s t = s.difficulty == t.difficulty && h256_eq s.work t.work && s.nonce == t.nonce

  -- `PowAlgorithm::difficulty`: what the runtime of the parent block says, which `runtime_api` asks
  -- of a client.
  unfoldable pub difficulty :
      {C E : Type 0} → (C → H256 → Result ℕ E) → Sha3Algorithm C → H256 → Result ℕ (PowError E)
  difficulty runtime_api self parent = elim (runtime_api self.client parent) [
    | ok d ↦ ok d
    | err e ↦ err (environment e)
  ]

  unfoldable pub break_tie : List ℕ → List ℕ → Bool
  unfolding bytes_gt
  break_tie own_seal new_seal = bytes_gt (blake2_256 own_seal) (blake2_256 new_seal)

  -- What `verify` does with a seal that decodes.
  unfoldable pub verify_seal : {E : Type 0} → H256 → Seal H256 → ℕ → Result Bool (PowError E)
  unfolding hash_meets_difficulty compute seal_eq
  verify_seal pre_hash seal difficulty =
      if not (hash_meets_difficulty seal.work difficulty)
      then ok false
      else (let attempt : Compute H256 = record {
        difficulty = difficulty;
        pre_hash = pre_hash;
        nonce = seal.nonce;
      } in
          if not (seal_eq (compute attempt) seal) then ok false else ok true)

  -- The parent and the pre-digest are not looked at.
  unfoldable pub verify : {E : Type 0} → H256 → List ℕ → ℕ → Result Bool (PowError E)
  verify pre_hash seal difficulty = elim (decode_seal seal) [
    | some s ↦ verify_seal pre_hash s difficulty
    | none ↦ ok false
  ]

  unfoldable pub preliminary_verify :
      {E : Type 0} → H256 → List ℕ → Result (Option Bool) (PowError E)
  preliminary_verify pre_hash seal = ok none
