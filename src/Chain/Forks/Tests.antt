-- ===== src/Chain/Forks/Tests.antt =====
-- Two forks from a genesis, at nodes that import them in different orders, and instances of the
-- theorems.
use crain.Prelude.{
  ℕ, ◌+◌, ◌-◌, ◌<◌, ◌≡◌, refl, inl, List, [], ◌∷◌, ◌++◌, some, none, ok, true, arith,
}
use crain.Prelude.Machine.{Build, u64_mod, checked, wrapping}
use crain.Difficulty.{genesis, entry_difficulty, delta}
use crain.Difficulty.Formula.{retargeted}
use crain.Difficulty.Totality.{on_timestamp_set_lem}
use crain.Difficulty.History.{genesis-IsValid}
use crain.Pow.{verify, verify_seal, compute, hash_meets_difficulty}
use crain.Node.Mining.{max_nonce, attempt, first_submission}
use crain.Node.Mining.Search.{Solves}
use crain.Pow as Pow
use crain.Pow.Tests.{toy}
use crain.Runtime as Runtime
use crain.Runtime.{target_block_time, on_timestamp}
use crain.Chain.{Chain, new_chain, extended}
use crain.Chain.History.{difficulty_of}
use crain.Chain.Sound.{IsSound, history}
use crain.Chain.Forks.{Import, Client, chain_at, asked_on, Accepts, Runs, launched, imported}
use crain.Chain.Forks.Known.{asked_on_known, known_chain-IsSound}
use crain.Chain.Forks.Agree.{block_accepted_everywhere}
use crain.Chain.Forks.Mined.{mined, mined_block_spreads}

-- A block on the genesis, whose hash is 0, at a time.
abbrev child : ℕ → ℕ → Import ℕ
child hash now = record {
  hash = hash;
  parent = 0;
  block = record { pre_hash = 7; seal = 1000 ∷ 5 ∷ 3 ∷ []; difficulty = 1000; timestamp = now };
  storage = retargeted target_block_time now (genesis 1000);
}

abbrev early : Import ℕ
early = child 11 1000000

abbrev late : Import ℕ
late = child 12 5000000

seals : verify toy {E = Unit {0}} 7 (1000 ∷ 5 ∷ 3 ∷ []) 1000 ≡ ok true
unfolding verify verify_seal
seals = refl

-- A block on the genesis is accepted by a client that does not know it.
child-Accepts :
    (b : Build) (client : Client ℕ) (hash now : ℕ)
    → chain_at toy b 1000 0 client 0 ≡ some (new_chain 1000)
    → chain_at toy b 1000 0 client hash ≡ none
    → now < u64_mod
    → Accepts toy b 1000 0 client (child hash now)
unfolding genesis on_timestamp
child-Accepts b client hash now known new small = record {
  above = new_chain 1000;
  parent_known = known;
  unknown = new;
  asked = asked_on_known toy b 1000 0 client 0 known;
  verified = seals;
  later = inl refl;
  small = small;
  executes =
      on_timestamp_set_lem b target_block_time now (omega arith) small
        (genesis-IsValid 1000 (omega arith));
}

one_fork : (b : Build) → Runs toy b 1000 0 (early ∷ [])
unfolding chain_at
one_fork b = imported [] early launched (child-Accepts b [] 11 1000000 refl refl (omega arith))

other_fork : (b : Build) → Runs toy b 1000 0 (late ∷ [])
unfolding chain_at
other_fork b = imported [] late launched (child-Accepts b [] 12 5000000 refl refl (omega arith))

both_forks : (b : Build) → Runs toy b 1000 0 (late ∷ early ∷ [])
unfolding chain_at
both_forks b =
    imported (early ∷ []) late (one_fork b)
      (child-Accepts b (early ∷ []) 12 5000000 refl refl (omega arith))

abbrev early_chain : Chain ℕ
early_chain = extended toy checked early.block early.storage (new_chain 1000)

early_known : chain_at toy checked 1000 0 (early ∷ []) 11 ≡ some early_chain
unfolding chain_at
early_known = refl

-- The genesis still asks for its own difficulty, and each fork for that of its blocks.
forks_asked :
    (asked_on toy checked 1000 0 (late ∷ early ∷ []) 0 ≡ ok 1000)
    × (asked_on toy checked 1000 0 (late ∷ early ∷ []) 11 ≡ ok 1005)
    × (asked_on toy checked 1000 0 (late ∷ early ∷ []) 12 ≡ ok 1005)
unfolding chain_at asked_on Pow.new Pow.clone Pow.difficulty Runtime.difficulty genesis
    entry_difficulty delta
forks_asked = (refl, refl, refl)

known_chain-IsSound_example :
    IsSound toy checked 1000 early_chain
    × (asked_on toy checked 1000 0 ((late ∷ []) ++ (early ∷ [])) 11
        ≡ ok (difficulty_of target_block_time 1000 (history early_chain)))
known_chain-IsSound_example =
    known_chain-IsSound toy checked 1000 0 (late ∷ []) (early ∷ []) 11 (omega arith) (omega arith)
      (both_forks checked) early_known

genesis_known : (b : Build) → chain_at toy b 1000 0 [] 0 ≡ some (new_chain 1000)
unfolding chain_at
genesis_known b = refl

genesis_below : (b : Build) → chain_at toy b 1000 0 (early ∷ []) 0 ≡ some (new_chain 1000)
unfolding chain_at
genesis_below b = refl

late_unknown : (b : Build) → chain_at toy b 1000 0 (early ∷ []) 12 ≡ none
unfolding chain_at
late_unknown b = refl

block_accepted_everywhere_example :
    Runs toy wrapping 1000 0 (late ∷ early ∷ [])
    × (chain_at toy wrapping 1000 0 (late ∷ early ∷ []) 12
        ≡ chain_at toy checked 1000 0 (late ∷ []) 12)
block_accepted_everywhere_example =
    block_accepted_everywhere toy checked wrapping 1000 0 late (omega arith) (omega arith)
      (other_fork checked) (one_fork wrapping) (genesis_known checked) (genesis_below wrapping) refl
      (late_unknown wrapping)

solved : (d : ℕ) → d ≡ 1000 → Solves toy (record { difficulty = d; pre_hash = 7 }) 3
unfolding attempt compute hash_meets_difficulty
solved d e = rw e

nowhere : (b : Build) → chain_at toy b 1000 0 [] 13 ≡ none
unfolding chain_at
nowhere b = refl

not_there : (b : Build) → chain_at toy b 1000 0 (early ∷ []) 13 ≡ none
unfolding chain_at
not_there b = refl

-- The block on the genesis is mined from the nonce 2 on, and also imported beside the other fork.
mined_block_spreads_example :
    (d : ℕ) × (seal : List ℕ) × (asked_on toy checked 1000 0 [] 0 ≡ ok d)
    × (first_submission toy (max_nonce - 2 + 3 + 1) (record { difficulty = d; pre_hash = 7 }) 2
        ≡ some seal)
    × Runs toy checked 1000 0 (mined toy checked 13 0 (new_chain 1000) 7 seal 2000000 ∷ [])
    × Runs toy wrapping 1000 0 (mined toy checked 13 0 (new_chain 1000) 7 seal 2000000 ∷ early ∷ [])
    × (chain_at toy wrapping 1000 0
          (mined toy checked 13 0 (new_chain 1000) 7 seal 2000000 ∷ early ∷ [])
          13
        ≡ chain_at toy checked 1000 0
            (mined toy checked 13 0 (new_chain 1000) 7 seal 2000000 ∷ [])
            13)
unfolding genesis
mined_block_spreads_example =
    mined_block_spreads toy checked wrapping 1000 0 13 0 7 (max_nonce - 2 + 3 + 1) 2 3 2000000
      (omega arith) (omega arith) launched (one_fork wrapping) (genesis_known checked)
      (genesis_below wrapping) refl (nowhere checked) (not_there wrapping) (omega arith)
      (omega arith) (solved 1000 refl) (omega arith) (inl refl) (omega arith)
