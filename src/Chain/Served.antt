-- ===== src/Chain/Served.antt =====
-- What the runtime API of runtime/src/lib.rs serves to the node, on the whole state of FRAME. That
-- the execution of a block sets its timestamp, by which the timestamp pallet calls the difficulty
-- pallet, and that nothing else of a block touches that pallet's storage, is `SetsDifficulty`.
mod Tests
use mathlib.Core.List.{append-nil, append_assoc}
use mathlib.Core.Path.{subst}
use crain.Prelude.{
  ℕ, ◌≤◌, ◌<◌, ◌≡◌, refl, ap, sym, ◌∙◌, List, [], ◌∷◌, ◌++◌, Outcome, done, bind-done,
  done-injective, ◌>>=◌, arith, All,
}
use crain.Prelude.Machine.{Build, u64_mod}
use crain.Primitives.{min_difficulty, max_difficulty}
use crain.Difficulty.{DifficultyAndTimestamp, Storage, genesis}
use crain.Runtime.{target_block_time, on_timestamp, difficulty}
use crain.Runtime.Apis.{Types, Frame, RuntimeApis, runtime_apis}
use crain.Chain.History.{History, Rises, difficulty_of, Follows}
use crain.Chain.Held.{Holds, genesis-Holds, on_timestamp-Holds}

module _ (t : Types) (f : Frame t) (b : Build) (timestamp : t.Block → ℕ) where
  open t use {State, Block}

  pub record SetsDifficulty : Type 0 where
    pub sets :
        (block : Block) (s s' : State)
        → f.execute_block block s ≡ done s'
        → on_timestamp b (timestamp block) (f.difficulty_storage s) ≡ done (f.difficulty_storage s')

  abbrev apis : RuntimeApis t
  apis = runtime_apis t f

  -- The blocks are executed one after the other; before each, the node asks for the difficulty.
  unfoldable pub execute_all : List Block → State → Outcome (History × State)
  execute_all [] s = done ([], s)
  execute_all (block ∷ later) s = do
    s' ← apis.execute_block block s
    rest ← execute_all later s'
    done (record { difficulty = apis.difficulty s; timestamp = timestamp block } ∷ rest.0, rest.1)

  Rises-prefix : (p q : History) → Rises (p ++ q) → Rises p
  Rises-prefix [] q r = tt
  Rises-prefix (x ∷ []) q r = tt
  Rises-prefix (x ∷ y ∷ p) q r = (r.0, Rises-prefix (y ∷ p) q r.1)

  -- What holds after the blocks, with what was asked before each of them.
  abbrev Served : ℕ → History → History × State → Type 0
  Served initial before out =
      Holds initial (before ++ out.0) (f.difficulty_storage out.1)
      × Follows target_block_time initial before out.0

  execute_all-Served :
      SetsDifficulty
      → {initial : ℕ} (before : History) (blocks : List Block) {s : State} {out : History × State}
      → Holds initial before (f.difficulty_storage s)
      → All (λ block. timestamp block < u64_mod) blocks
      → execute_all blocks s ≡ done out
      → Rises (before ++ out.0)
      → Served initial before out
  unfolding execute_all difficulty
  execute_all-Served law {initial} before [] {s} {out} v small e r =
      subst (Served initial before) (done-injective {x = ([], s)} refl e)
        (rw (append-nil before) v, tt)
  execute_all-Served law {initial} before (block ∷ later) {s} {out} v small e r =
      let entry : DifficultyAndTimestamp = record {
        difficulty = apis.difficulty s;
        timestamp = timestamp block;
      } in
      let (mid, executed, e') = bind-done (apis.execute_block block s) _ e in
      let (rest, ran, last) = bind-done (execute_all later mid) _ e' in
      let same : ◌≡◌ {A = History × State} (entry ∷ rest.0, rest.1) out =
        done-injective refl last in
      let rises : Rises (before ++ (entry ∷ rest.0)) =
        subst (λ (o : History × State). Rises (before ++ o.0)) (sym same) r in
      let rises' : Rises ((before ++ (entry ∷ [])) ++ rest.0) =
        rw (append_assoc before (entry ∷ []) rest.0) rises in
      let held =
        on_timestamp-Holds v entry refl small.0 b
          (Rises-prefix (before ++ (entry ∷ [])) rest.0 rises') (law.sets block s mid executed) in
      let (holds, follows) =
        execute_all-Served law (before ++ (entry ∷ [])) later {s = mid} {out = rest} held small.1
          ran rises' in
      subst (Served initial before) same
        (rw (← append_assoc before (entry ∷ []) rest.0) holds, (v.served, follows))

  -- From a genesis within the bounds, where the execution of a block is what sets the difficulty
  -- pallet's storage, by its timestamp: whatever blocks are executed, if none fails and their
  -- timestamps do not fall, then the runtime API answers with the difficulty that the history
  -- alone determines, before each block and after the last, in every build.
  pub difficulty-execute_all :
      SetsDifficulty
      → (initial : ℕ) (blocks : List Block) (s s' : State) (h : History) → min_difficulty ≤ initial
      → initial ≤ max_difficulty
      → f.difficulty_storage s ≡ genesis initial
      → All (λ block. timestamp block < u64_mod) blocks
      → execute_all blocks s ≡ done (h, s')
      → Rises h
      → Follows target_block_time initial [] h
        × (apis.difficulty s' ≡ difficulty_of target_block_time initial h)
  unfolding difficulty
  difficulty-execute_all law initial blocks s s' h low high begun small e r =
      let (holds, follows) =
        execute_all-Served law [] blocks {s = s} {out = (h, s')}
          (rw begun (genesis-Holds initial low high)) small e r in
      (follows, holds.served)
