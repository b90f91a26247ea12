-- ===== src/Chain/Forks.antt =====
-- A node with forks: the blocks that its client knows, each with the parent that it was imported
-- on, as the import of node/src/service.rs leaves them. The difficulty for a block is what the
-- algorithm of pow/src/lib.rs reads from the runtime at its parent. That a block is new, and that
-- its parent is known, are demanded by the client of Substrate.
pub mod Known
pub mod Agree
pub mod Mined
mod Tests
use crain.Prelude.{
  ℕ, ◌+◌, ◌≤◌, ◌<◌, ◌≡◌, ◌⊎◌, true, if◌then◌else◌, List, [], ◌∷◌, Option, none, some, Outcome, done,
  Result, ok, err,
}
use crain.Prelude.Machine.{Build, u64_mod}
use crain.Difficulty.{Storage}
use crain.Pow.Crypto.{Crypto}
use crain.Pow.{verify}
use crain.Pow as Pow
use crain.Runtime as Runtime
use crain.Runtime.{minimum_period, on_timestamp}
use crain.Chain.{Block, Chain, new_chain, extended}

-- A block with its hash, its parent's, and the pallet's storage after it.
pub record Import (H256 : Type 0) : Type 0 where
  pub hash : H256
  pub parent : H256
  pub block : Block H256
  pub storage : Storage

-- What a client knows besides the genesis: the imports, the last one first.
abbrev pub Client : Type 0 → Type 0
Client H256 = List (Import H256)

module _ (c : Crypto) (b : Build) (initial : ℕ) (genesis_hash : c.H256) where
  open c use {H256, h256_eq}

  abbrev pub extend_by : Import H256 → Option (Chain H256) → Option (Chain H256)
  extend_by x none = none
  extend_by x (some s) = some (extended c b x.block x.storage s)

  -- The chain that ends in a block, along the parents.
  unfoldable pub chain_at : Client H256 → H256 → Option (Chain H256)
  chain_at [] hash = if h256_eq hash genesis_hash then some (new_chain initial) else none
  chain_at (x ∷ older) hash =
      let it = h256_eq hash x.hash in
      let found = chain_at older (if it then x.parent else hash) in
      if it then extend_by x found else found

  -- The runtime API at a block, which fails at one that the client does not know.
  abbrev pub difficulty_at : Client H256 → H256 → Result ℕ (Unit {0})
  difficulty_at client hash = elim (chain_at client hash) [
    | none ↦ err tt
    | some s ↦ ok (Runtime.difficulty s.storage)
  ]

  unfoldable pub asked_on : Client H256 → H256 → Result ℕ (Pow.PowError (Unit {0}))
  asked_on client parent = Pow.difficulty c difficulty_at (Pow.clone (Pow.new client)) parent

  -- What a new block is imported with.
  pub record Accepts (client : Client H256) (x : Import H256) : Type 0 where
    pub above : Chain H256
    pub parent_known : chain_at client x.parent ≡ some above
    pub unknown : chain_at client x.hash ≡ none
    pub asked : asked_on client x.parent ≡ ok x.block.difficulty
    pub verified :
        verify c {E = Unit {0}} x.block.pre_hash x.block.seal x.block.difficulty ≡ ok true
    pub later : (above.now ≡ 0) ⊎ (above.now + minimum_period ≤ x.block.timestamp)
    pub small : x.block.timestamp < u64_mod
    pub executes : on_timestamp b x.block.timestamp above.storage ≡ done x.storage

  -- The clients that imports make, in any order and on any known parent.
  pub data Runs : Client H256 → Type 0 where
    launched : Runs []
    imported :
        (client : Client H256) (x : Import H256)
        → Runs client
        → Accepts client x
        → Runs (x ∷ client)
