-- ===== src/Chain/Forks/Agree.antt =====
-- Nodes agree: what one accepts, every node accepts that has the same blocks below it.
use mathlib.Core.Option.{some-injective}
use crain.Prelude.{
  ℕ, ◌≤◌, ◌≡◌, refl, ap, sym, ◌∙◌, List, ◌∷◌, none, some, done, done-injective, arith, map, ◌<◌,
}
use crain.Prelude.Machine.{Build, u64_mod}
use crain.Primitives.{min_difficulty, max_difficulty}
use crain.Difficulty.{Storage}
use crain.Difficulty.Formula.{retargeted}
use crain.Difficulty.Totality.{on_timestamp_set_lem}
use crain.Pow.Crypto.{Crypto}
use crain.Runtime.{target_block_time, on_timestamp}
use crain.Chain.{Block, Chain}
use crain.Chain.History.{difficulty_of, window_of, last_stamp}
use crain.Chain.Sound.{IsSound, Reach-IsSound, entry}
use crain.Chain.Forks.{Import, Client, chain_at, Accepts, Runs, imported}
use crain.Chain.Forks.Known.{asked_on_known, chain_at-new, known-Reach, Runs-imported}

-- A chain as its blocks alone make it.
abbrev rebuilt : {H256 : Type 0} → ℕ → List (Block H256) → Chain H256
rebuilt initial blocks = record {
  storage = record {
    past_difficulties_and_timestamps = window_of (map entry blocks);
    current_difficulty = difficulty_of target_block_time initial (map entry blocks);
    initial_difficulty = initial;
  };
  now = last_stamp (map entry blocks);
  blocks = blocks;
}

module _ (c : Crypto) (b : Build) (initial : ℕ) (genesis_hash : c.H256) where
  open c use {H256}

  IsSound-rebuilt : {s : Chain H256} → IsSound c b initial s → s ≡ rebuilt initial s.blocks
  IsSound-rebuilt {s} v = λ i. record {
    storage = record {
      past_difficulties_and_timestamps = v.held.window i;
      current_difficulty = v.held.served i;
      initial_difficulty = v.held.begun i;
    };
    now = v.clock i;
    blocks = s.blocks;
  }

  known-rebuilt :
      {client : Client H256} (hash : H256) {s : Chain H256}
      → min_difficulty ≤ initial
      → initial ≤ max_difficulty
      → Runs c b initial genesis_hash client
      → chain_at c b initial genesis_hash client hash ≡ some s
      → s ≡ rebuilt initial s.blocks
  known-rebuilt hash l h r known =
      IsSound-rebuilt
        (Reach-IsSound c b initial l h (known-Reach c b initial genesis_hash hash r known))

  executed_as :
      {s : Chain H256} (now : ℕ) {storage : Storage}
      → IsSound c b initial s
      → now < u64_mod
      → on_timestamp b now s.storage ≡ done storage
      → storage ≡ retargeted target_block_time now s.storage
  unfolding on_timestamp
  executed_as now v small set =
      done-injective set
        (on_timestamp_set_lem b target_block_time now (omega arith) small v.held.valid)

module _ (c : Crypto) (b b' : Build) (initial : ℕ) (genesis_hash : c.H256) where
  open c use {H256, h256_eq_iff}

  -- Chains with the same blocks are the same chain, in every build.
  same_chain :
      {client client' : Client H256} (hash hash' : H256) {s s' : Chain H256}
      → min_difficulty ≤ initial
      → initial ≤ max_difficulty
      → Runs c b initial genesis_hash client
      → Runs c b' initial genesis_hash client'
      → chain_at c b initial genesis_hash client hash ≡ some s
      → chain_at c b' initial genesis_hash client' hash' ≡ some s'
      → s.blocks ≡ s'.blocks
      → s ≡ s'
  same_chain hash hash' l h r r' known known' e =
      known-rebuilt c b initial genesis_hash hash l h r known
      ∙ ap (rebuilt initial) e
      ∙ sym (known-rebuilt c b' initial genesis_hash hash' l h r' known')

  accepted_too :
      {client client' : Client H256} {x : Import H256}
      → min_difficulty ≤ initial
      → initial ≤ max_difficulty
      → Runs c b initial genesis_hash client
      → (a : Accepts c b initial genesis_hash client x)
      → chain_at c b' initial genesis_hash client' x.parent ≡ some a.above
      → chain_at c b' initial genesis_hash client' x.hash ≡ none
      → Accepts c b' initial genesis_hash client' x
  unfolding on_timestamp
  accepted_too {client} {client'} {x} l h r a known new =
      let v =
        Reach-IsSound c b initial l h
          (known-Reach c b initial genesis_hash x.parent r a.parent_known) in
      record {
        above = a.above;
        parent_known = known;
        unknown = new;
        asked =
            asked_on_known c b' initial genesis_hash client' x.parent known
            ∙ sym (asked_on_known c b initial genesis_hash client x.parent a.parent_known)
            ∙ a.asked;
        verified = a.verified;
        later = a.later;
        small = a.small;
        executes =
            on_timestamp_set_lem b' target_block_time x.block.timestamp (omega arith) a.small
              v.held.valid
            ∙ ap done
                (sym (executed_as c b initial genesis_hash x.block.timestamp v a.small a.executes));
      }

  -- Two nodes of one genesis, built with or without overflow checks, do not fall apart: a block that
  -- the first has just accepted is accepted by the second as well, whatever forks each of them knows
  -- and in whichever order they came, if the second knows a block of the parent's hash with the same
  -- blocks up to it and does not know the new one; and it makes the same chain at both.
  pub block_accepted_everywhere :
      {client client' : Client H256} (x : Import H256) {s s' : Chain H256}
      → min_difficulty ≤ initial
      → initial ≤ max_difficulty
      → Runs c b initial genesis_hash (x ∷ client)
      → Runs c b' initial genesis_hash client'
      → chain_at c b initial genesis_hash client x.parent ≡ some s
      → chain_at c b' initial genesis_hash client' x.parent ≡ some s'
      → s.blocks ≡ s'.blocks
      → chain_at c b' initial genesis_hash client' x.hash ≡ none
      → Runs c b' initial genesis_hash (x ∷ client')
        × (chain_at c b' initial genesis_hash (x ∷ client') x.hash
            ≡ chain_at c b initial genesis_hash (x ∷ client) x.hash)
  unfolding accepted_too
  block_accepted_everywhere {client} {client'} x {s} {s'} l h r r' known known' e new =
      let (before, a) = Runs-imported c b initial genesis_hash {client = client} {x = x} r in
      let above : a.above ≡ s = some-injective _ _ (sym a.parent_known ∙ known) in
      let same : s ≡ s' = same_chain x.parent x.parent l h before r' known known' e in
      let a' =
        accepted_too {client = client} {client' = client'} {x = x} l h before a
          (known' ∙ ap some (sym same ∙ sym above)) new in
      let it = (h256_eq_iff x.hash x.hash).1 refl in
      (
        imported client' x r' a',
        chain_at-new c b' initial genesis_hash a' x.hash it
            ∙ sym (chain_at-new c b initial genesis_hash a x.hash it),
      )
