-- ===== src/Chain/Sound.antt =====
-- What holds of every chain that blocks can make from a genesis.
use mathlib.Core.List.{map-append}
use crain.Prelude.{
  ℕ, ◌≤◌, ◌<◌, ◌≡◌, refl, sym, ◌∙◌, [], ◌∷◌, ◌++◌, map, some, ok, done, arith, All, All-append,
}
use crain.Prelude.Machine.{Build, u64_mod}
use crain.Primitives.{min_difficulty, max_difficulty}
use crain.Difficulty.{DifficultyAndTimestamp, Storage}
use crain.Pow.Crypto.{Seal, Crypto}
use crain.Pow as Pow
use crain.Pow.Verify.{IsSealed, verify_iff}
use crain.Runtime as Runtime
use crain.Runtime.{target_block_time, on_timestamp}
use crain.Chain.{
  Block, Chain, new_chain, asked_difficulty, extended, Step, import_block, Reach, start, next,
}
use crain.Chain.History.{
  History, last_stamp, Rises, Follows, Follows-append, last_stamp-append, Rises-append,
}
use crain.Chain.Held.{Holds, genesis-Holds, on_timestamp-Holds}

-- The entry that a block leaves in the pallet's array.
abbrev pub entry : {H256 : Type 0} → Block H256 → DifficultyAndTimestamp
entry block = record { difficulty = block.difficulty; timestamp = block.timestamp }

abbrev pub history : {H256 : Type 0} → Chain H256 → History
history s = map entry s.blocks

module _ (c : Crypto) (b : Build) where
  open c use {H256, decode_seal}

  -- A block whose seal is worth its difficulty, within the bounds of the primitives.
  abbrev pub IsMined : Block H256 → Type 0
  IsMined block =
      ((seal : Seal H256) × (decode_seal block.seal ≡ some seal)
        × IsSealed c block.pre_hash block.difficulty seal)
      × (min_difficulty ≤ block.difficulty)
      × (block.difficulty ≤ max_difficulty)

  -- The pallet's storage is what the history alone says, and the blocks are mined.
  pub record IsSound (initial : ℕ) (s : Chain H256) : Type 0 where
    pub held : Holds initial (history s) s.storage
    pub clock : s.now ≡ last_stamp (history s)
    pub rises : Rises (history s)
    pub scheduled : Follows target_block_time initial [] (history s)
    pub mined : All IsMined s.blocks

  new_chain-IsSound :
      (initial : ℕ)
      → min_difficulty ≤ initial
      → initial ≤ max_difficulty
      → IsSound initial (new_chain initial)
  new_chain-IsSound initial l h = record {
    held = genesis-Holds initial l h;
    clock = refl;
    rises = tt;
    scheduled = tt;
    mined = tt;
  }

  pub asked-difficulty :
      (s : Chain H256) (parent : H256)
      → asked_difficulty c b s parent ≡ ok s.storage.current_difficulty
  unfolding asked_difficulty Pow.new Pow.clone Pow.difficulty Runtime.difficulty
  asked-difficulty s parent = refl

  module _ {initial : ℕ} {s : Chain H256} (v : IsSound initial s) (block : Block H256)
      (asked : block.difficulty ≡ s.storage.current_difficulty) (later : s.now ≤ block.timestamp)
      (small : block.timestamp < u64_mod) where
    new_history :
        (storage : Storage)
        → history (extended c b block storage s) ≡ history s ++ (entry block ∷ [])
    new_history storage = map-append entry s.blocks (block ∷ [])

    risen : Rises (history s ++ (entry block ∷ []))
    risen = Rises-append (history s) (entry block) v.rises (rw (← v.clock) later)

    extended-IsSound :
        {storage : Storage}
        → on_timestamp b block.timestamp s.storage ≡ done storage
        → IsMined block
        → IsSound initial (extended c b block storage s)
    extended-IsSound {storage} set m = record {
      held =
          rw (new_history storage)
            (on_timestamp-Holds v.held (entry block) asked small b risen set);
      clock = rw (new_history storage) (sym (last_stamp-append (history s) (entry block)));
      rises = rw (new_history storage) risen;
      scheduled = rw (new_history storage) (
          Follows-append target_block_time initial [] (history s) (entry block) v.scheduled
            (asked ∙ v.held.served));
      mined = All-append IsMined s.blocks (block ∷ []) v.mined (m, tt);
    }

  -- A step extends the chain by a block that is mined, and keeps all of that.
  pub Step-IsSound :
      {initial : ℕ} {s t : Chain H256} → Step c b s t → IsSound initial s → IsSound initial t
  Step-IsSound {initial} {s} {t}
        (import_block parent block storage asked verified later small set e) v =
      rw e (extended-IsSound v block same (ground arith) small set mined)
    where
      same : block.difficulty ≡ s.storage.current_difficulty
      same = cc (asked-difficulty s parent)

      mined : IsMined block
      mined = (
        (verify_iff c block.pre_hash block.difficulty block.seal).0.0 verified,
        omega (arith, v.held.positive, same),
        omega (arith, same, v.held.valid.current_capped),
      )

  -- From an initial difficulty within the bounds of the primitives, every chain that blocks can
  -- make is sound, in every build: each block carries a seal that is worth its difficulty, the
  -- timestamps rise, and the difficulty of each block and of the next one, between the minimum and
  -- the maximum, is the specification's for the blocks before, of which the pallet's array holds
  -- the last sixty.
  pub Reach-IsSound :
      (initial : ℕ) {s : Chain H256}
      → min_difficulty ≤ initial
      → initial ≤ max_difficulty
      → Reach c b initial s
      → IsSound initial s
  Reach-IsSound initial l h start = new_chain-IsSound initial l h
  Reach-IsSound initial l h (next r st) = Step-IsSound st (Reach-IsSound initial l h r)
