-- ===== src/Chain.antt =====
-- The chain as the parts make it: node/src/service.rs imports a block if its seal is accepted by
-- pow/src/lib.rs for the difficulty that runtime/src/lib.rs serves, and the block's timestamp then
-- calls pallets/difficulty/src/lib.rs. What the import of sc_consensus_pow and the timestamp pallet
-- demand of a block are the premises of a step; the first block's difficulty is the genesis'.
pub mod History
pub mod Recent
pub mod Held
pub mod Direction
pub mod Sound
pub mod Live
pub mod Forks
pub mod Served
mod Tests
use crain.Prelude.{ℕ, ◌+◌, ◌≤◌, ◌<◌, ◌≡◌, ◌⊎◌, true, List, [], ◌∷◌, ◌++◌, Outcome, done, Result, ok}
use crain.Prelude.Machine.{Build, u64_mod}
use crain.Difficulty.{Storage, genesis}
use crain.Pow.Crypto.{Crypto}
use crain.Pow.{verify}
use crain.Pow as Pow
use crain.Runtime as Runtime
use crain.Runtime.{minimum_period, on_timestamp}

-- What a block is accepted by, and the timestamp that it sets.
pub record Block (H256 : Type 0) : Type 0 where
  pub pre_hash : H256
  pub seal : List ℕ
  pub difficulty : ℕ
  pub timestamp : ℕ

-- The storage of the difficulty pallet, `Now` of the timestamp pallet, and the blocks, oldest first.
pub record Chain (H256 : Type 0) : Type 0 where
  pub storage : Storage
  pub now : ℕ
  pub blocks : List (Block H256)

abbrev pub new_chain : {H256 : Type 0} → ℕ → Chain H256
new_chain initial = record { storage = genesis initial; now = 0; blocks = [] }

module _ (c : Crypto) (b : Build) where
  open c use {H256}

  -- The difficulty that the node asks for on top of a chain: the algorithm's, through the runtime
  -- API of the client, which is the chain here.
  unfoldable pub asked_difficulty : Chain H256 → H256 → Result ℕ (Pow.PowError (Unit {0}))
  asked_difficulty s parent =
      let algorithm = Pow.new s in
      Pow.difficulty c (λ (client : Chain H256) h. ok (Runtime.difficulty client.storage))
        (Pow.clone algorithm) parent

  abbrev pub extended : Block H256 → Storage → Chain H256 → Chain H256
  extended block storage s = record {
    storage = storage;
    now = block.timestamp;
    blocks = s.blocks ++ (block ∷ []);
  }

  -- A block joins the chain: its seal is verified at the difficulty that the chain asks for, its
  -- timestamp is a u64 that lies the minimum period after the last one (any will do while that is
  -- 0), and the runtime sets it without a panic.
  pub data Step (s t : Chain H256) : Type 0 where
    import_block :
        (parent : H256) (block : Block H256) (storage : Storage)
        → asked_difficulty s parent ≡ ok block.difficulty
        → verify c {E = Unit {0}} block.pre_hash block.seal block.difficulty ≡ ok true
        → (s.now ≡ 0) ⊎ (s.now + minimum_period ≤ block.timestamp)
        → block.timestamp < u64_mod
        → on_timestamp b block.timestamp s.storage ≡ done storage
        → t ≡ extended block storage s
        → Step s t

  -- The chains that blocks can make from a genesis.
  pub data Reach (initial : ℕ) : Chain H256 → Type 0 where
    start : Reach initial (new_chain initial)
    next : {s t : Chain H256} → Reach initial s → Step s t → Reach initial t
