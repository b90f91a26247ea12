-- ===== src/Pow/Crypto.antt =====
-- What pow/src/lib.rs and node/src/service.rs take from other crates.
use crain.Prelude.{ℕ, ◌<◌, ◌≡◌, ◌↔◌, Bool, true, List, Option, some}
use crain.Prelude.Machine.{u256_mod}

-- `difficulty` and `nonce` are U256.
pub record Seal (H256 : Type 0) : Type 0 where
  pub difficulty : ℕ
  pub work : H256
  pub nonce : ℕ

pub record Compute (H256 : Type 0) : Type 0 where
  pub difficulty : ℕ
  pub pre_hash : H256
  pub nonce : ℕ

pub record Crypto : Type 1 where
  pub H256 : Type 0
  -- `U256::from(&hash[..])`
  pub to_u256 : H256 → ℕ
  pub to_u256_lt : (h : H256) → to_u256 h < u256_mod
  -- `==` on H256
  pub h256_eq : H256 → H256 → Bool
  pub h256_eq_iff : (g h : H256) → (h256_eq g h ≡ true) ↔ (g ≡ h)
  -- `Sha3_256::digest`, as an H256
  pub sha3_256 : List ℕ → H256
  -- the derived codecs, on lists of bytes
  pub encode_compute : Compute H256 → List ℕ
  pub encode_seal : Seal H256 → List ℕ
  pub decode_seal : List ℕ → Option (Seal H256)
  pub decode_encode : (s : Seal H256) → decode_seal (encode_seal s) ≡ some s
  -- the 32 bytes of the hash
  pub blake2_256 : List ℕ → List ℕ
