-- ===== src/Node/Mining/Tests.antt =====
-- Runs of the mining thread, and instances of its theorems. Hashes are numbers: the nonce 3 gives
-- the work 5, which meets the difficulty 10, and every other nonce a work that does not.
use crain.Prelude.{ℕ, ◌-◌, ◌+◌, ◌<◌, ◌≡◌, refl, ◌↔◌, List, [], ◌∷◌, Option, none, some, All, arith}
use crain.Pow.{hash_meets_difficulty, compute}
use crain.Pow.Tests.{toy}
use crain.Node.Mining.{max_nonce, Metadata, submit, working, sleep, attempt, mine_step, mine}
use crain.Node.Mining.Search.{IsSound, Submits, mine-IsSound, first_submission_found}
use crain.Node.Mining.Halts.{IsSolvable, search_ends_iff}

abbrev block : Metadata ℕ
block = record { difficulty = 10; pre_hash = 7 }

abbrev rounds : List (Option (Metadata ℕ))
rounds = some block ∷ none ∷ some block ∷ some block ∷ []

mine_runs : mine toy rounds 2 ≡ (
  (some block, working)
      ∷ (none, sleep)
      ∷ (some block, submit (10 ∷ 5 ∷ 3 ∷ []))
      ∷ (some block, working)
      ∷ [],
  1,
)
unfolding mine mine_step attempt compute hash_meets_difficulty
mine_runs = refl

-- The last nonce is not tried: the one before it is followed by 0.
wraps : mine_step toy (some block) (max_nonce - 1) ≡ (working, 0)
unfolding mine_step attempt compute hash_meets_difficulty
wraps = refl

mine-IsSound_example :
    All (IsSound toy ℕ) (mine toy rounds 2).0 × ((mine toy rounds 2).1 < max_nonce)
mine-IsSound_example = mine-IsSound toy ℕ rounds 2 (omega arith)

first_submission_found_example : Submits toy ℕ (max_nonce - 4 + 3 + 1) block 4
unfolding attempt compute hash_meets_difficulty
first_submission_found_example =
    first_submission_found toy ℕ (max_nonce - 4 + 3 + 1) block 4 3 (omega arith) (omega arith) refl
      (omega arith)

search_ends_iff_example :
    (((rounds : ℕ) × Submits toy ℕ rounds block 4) ↔ IsSolvable toy block)
    × (IsSolvable toy block ↔ Submits toy ℕ (max_nonce + max_nonce) block 4)
search_ends_iff_example = search_ends_iff toy ℕ block 4 (omega arith)
