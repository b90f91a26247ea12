-- ===== src/Chain/Forks/Mined.antt =====
-- What the mining thread of node/src/service.rs submits is a block for every node with the parent.
use crain.Prelude.{ℕ, ◌+◌, ◌-◌, ◌≤◌, ◌<◌, ◌≡◌, ◌⊎◌, List, ◌∷◌, none, some, ok, true, arith}
use crain.Prelude.Machine.{Build, u64_mod}
use crain.Primitives.{min_difficulty, max_difficulty}
use crain.Difficulty.Formula.{retargeted}
use crain.Difficulty.Totality.{on_timestamp_set_lem}
use crain.Pow.Crypto.{Crypto}
use crain.Pow.{verify}
use crain.Runtime.{target_block_time, minimum_period, on_timestamp}
use crain.Node.Mining.{max_nonce, first_submission}
use crain.Node.Mining.Search.{Solves, first_submission_found}
use crain.Chain.{Chain}
use crain.Chain.Sound.{Reach-IsSound}
use crain.Chain.Live.{sealed_block}
use crain.Chain.Forks.{Import, Client, chain_at, asked_on, Accepts, Runs, imported}
use crain.Chain.Forks.Known.{asked_on_known, known-Reach}
use crain.Chain.Forks.Agree.{block_accepted_everywhere}

module _ (c : Crypto) (b : Build) where
  open c use {H256}

  -- A block with a seal for it, on a chain that ends in its parent.
  abbrev pub mined : (hash parent : H256) → Chain H256 → H256 → List ℕ → ℕ → Import H256
  mined hash parent s pre_hash seal now = record {
    hash = hash;
    parent = parent;
    block = sealed_block c b s pre_hash seal now;
    storage = retargeted target_block_time now s.storage;
  }

  mined-Accepts :
      (initial : ℕ) (genesis_hash : H256) {client : Client H256} {s : Chain H256}
      (hash parent pre_hash : H256) (seal : List ℕ) (now : ℕ)
      → min_difficulty ≤ initial
      → initial ≤ max_difficulty
      → Runs c b initial genesis_hash client
      → chain_at c b initial genesis_hash client parent ≡ some s
      → chain_at c b initial genesis_hash client hash ≡ none
      → verify c {E = Unit {0}} pre_hash seal s.storage.current_difficulty ≡ ok true
      → (s.now ≡ 0) ⊎ (s.now + minimum_period ≤ now)
      → now < u64_mod
      → Accepts c b initial genesis_hash client (mined hash parent s pre_hash seal now)
  unfolding on_timestamp
  mined-Accepts initial g {client} {s} hash parent pre_hash seal now l h r known new ok_seal later
        small =
      let v = Reach-IsSound c b initial l h (known-Reach c b initial g parent r known) in
      record {
        above = s;
        parent_known = known;
        unknown = new;
        asked = asked_on_known c b initial g client parent known;
        verified = ok_seal;
        later = later;
        small = small;
        executes = on_timestamp_set_lem b target_block_time now (omega arith) small v.held.valid;
      }

module _ (c : Crypto) (b b' : Build) (initial : ℕ) (genesis_hash : c.H256) where
  open c use {H256}

  -- On any known block of a node, whose genesis has an initial difficulty within the bounds of the
  -- primitives: if some nonce below U256::MAX solves a new block at the difficulty that the node
  -- asks for there, then the mining thread, from any such nonce, submits a seal within the rounds up
  -- to the end of the nonces and on from 0 to the solution. With it, a timestamp that the timestamp
  -- pallet accepts and a hash that is new to both, the block is imported by the node itself and by
  -- any other one of that genesis that has the same blocks up to the parent, in whichever builds and
  -- whatever forks they know; and it makes the same chain at both.
  pub mined_block_spreads :
      {client client' : Client H256} {s s' : Chain H256} (hash parent pre_hash : H256)
      (rounds nonce n now : ℕ)
      → min_difficulty ≤ initial
      → initial ≤ max_difficulty
      → Runs c b initial genesis_hash client
      → Runs c b' initial genesis_hash client'
      → chain_at c b initial genesis_hash client parent ≡ some s
      → chain_at c b' initial genesis_hash client' parent ≡ some s'
      → s.blocks ≡ s'.blocks
      → chain_at c b initial genesis_hash client hash ≡ none
      → chain_at c b' initial genesis_hash client' hash ≡ none
      → nonce < max_nonce
      → n < max_nonce
      → Solves c (record { difficulty = s.storage.current_difficulty; pre_hash = pre_hash }) n
      → max_nonce - nonce + n < rounds
      → (s.now ≡ 0) ⊎ (s.now + minimum_period ≤ now)
      → now < u64_mod
      → (d : ℕ) × (seal : List ℕ) × (asked_on c b initial genesis_hash client parent ≡ ok d)
        × (first_submission c rounds (record { difficulty = d; pre_hash = pre_hash }) nonce
            ≡ some seal)
        × Runs c b initial genesis_hash (mined c b hash parent s pre_hash seal now ∷ client)
        × Runs c b' initial genesis_hash (mined c b hash parent s pre_hash seal now ∷ client')
        × (chain_at c b' initial genesis_hash
              (mined c b hash parent s pre_hash seal now ∷ client')
              hash
            ≡ chain_at c b initial genesis_hash
                (mined c b hash parent s pre_hash seal now ∷ client)
                hash)
  mined_block_spreads {client} {client'} {s} {s'} hash parent pre_hash rounds nonce n now l h r r'
        known known' same new new' x y z enough later small =
      let (seal, found, accepted) =
        first_submission_found c (Unit {0}) rounds
          (record { difficulty = s.storage.current_difficulty; pre_hash = pre_hash }) nonce n x y z
          enough in
      let block = mined c b hash parent s pre_hash seal now in
      let here = imported client block r (
        mined-Accepts c b initial genesis_hash hash parent pre_hash seal now l h r known new
          accepted later small) in
      let (there, agree) =
        block_accepted_everywhere c b b' initial genesis_hash {client = client} {client' = client'}
          block l h here r' known known' same new' in
      (
        s.storage.current_difficulty,
        seal,
        asked_on_known c b initial genesis_hash client parent known,
        found,
        here,
        there,
        agree,
      )
