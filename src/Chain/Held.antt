-- ===== src/Chain/Held.antt =====
-- The storage of pallets/difficulty/src/lib.rs that holds a history, before and after a block.
use crain.Prelude.{
  ℕ, ◌≤◌, ◌<◌, ◌≡◌, refl, ap₂, sym, ◌∙◌, [], ◌∷◌, ◌++◌, some, done, done-injective, arith, drop,
}
use crain.Prelude.Machine.{Build, u64_mod}
use crain.Primitives.{min_difficulty, max_difficulty}
use crain.Difficulty.{DifficultyAndTimestamp, Window, Storage, genesis}
use crain.Difficulty.Loops.{elapsed, total_difficulty}
use crain.Difficulty.Formula.{IsValid, difficulty_for, retargeted}
use crain.Difficulty.Totality.{on_timestamp_set_lem}
use crain.Difficulty.Response.{retargeted-IsValid}
use crain.Difficulty.History.{genesis-IsValid}
use crain.Runtime.{target_block_time, on_timestamp}
use crain.Chain.History.{History, Rises, difficulty_of, window_of}
use crain.Chain.Recent.{window_of-append, elapsed-window_of, total-window_of}

-- The storage is what the history alone says.
pub record Holds (initial : ℕ) (h : History) (s : Storage) : Type 0 where
  pub valid : IsValid s
  pub positive : min_difficulty ≤ s.current_difficulty
  pub begun : s.initial_difficulty ≡ initial
  pub window : s.past_difficulties_and_timestamps ≡ window_of h
  pub served : s.current_difficulty ≡ difficulty_of target_block_time initial h

pub genesis-Holds :
    (initial : ℕ)
    → min_difficulty ≤ initial
    → initial ≤ max_difficulty
    → Holds initial [] (genesis initial)
unfolding genesis
genesis-Holds initial l h = record {
  valid = genesis-IsValid initial h;
  positive = l;
  begun = refl;
  window = refl;
  served = refl;
}

-- The formula of the pallet, on the window of a history, is that of the history.
difficulty_of-window_of :
    (t initial : ℕ) (h : History) (e : DifficultyAndTimestamp)
    → Rises (h ++ (e ∷ []))
    → difficulty_for t
        (elapsed t (window_of (h ++ (e ∷ []))))
        (total_difficulty initial (window_of (h ++ (e ∷ []))))
      ≡ difficulty_of t initial (h ++ (e ∷ []))
difficulty_of-window_of t initial [] e r =
    ap₂ (difficulty_for t) (elapsed-window_of e [] t r) (total-window_of e [] initial)
difficulty_of-window_of t initial (x ∷ h) e r =
    ap₂ (difficulty_for t) (elapsed-window_of x (h ++ (e ∷ [])) t r)
      (total-window_of x (h ++ (e ∷ [])) initial)

-- A block with the difficulty that is stored.
module _ {initial : ℕ} {h : History} {s : Storage} (v : Holds initial h s)
    (e : DifficultyAndTimestamp) (asked : e.difficulty ≡ s.current_difficulty)
    (small : e.timestamp < u64_mod) where
  abbrev after : Storage
  after = retargeted target_block_time e.timestamp s

  moved_window : after.past_difficulties_and_timestamps ≡ window_of (h ++ (e ∷ []))
  moved_window =
      ap₂
        (λ (w : Window) (d : ℕ).
          drop 1 w ++ (some (record { difficulty = d; timestamp = e.timestamp }) ∷ []))
        v.window (sym asked)
      ∙ sym (window_of-append h e)

  pub retargeted-Holds : Rises (h ++ (e ∷ [])) → Holds initial (h ++ (e ∷ [])) after
  retargeted-Holds risen = record {
    valid = retargeted-IsValid target_block_time e.timestamp small v.valid;
    positive = omega arith;
    begun = v.begun;
    window = moved_window;
    served =
        ap₂
          (λ (i : ℕ) (w : Window).
            difficulty_for target_block_time (elapsed target_block_time w) (total_difficulty i w))
          v.begun moved_window
        ∙ difficulty_of-window_of target_block_time initial h e risen;
  }

  -- What the runtime makes of the storage, in every build.
  pub on_timestamp-Holds :
      (b : Build) {storage : Storage}
      → Rises (h ++ (e ∷ []))
      → on_timestamp b e.timestamp s ≡ done storage
      → Holds initial (h ++ (e ∷ [])) storage
  unfolding on_timestamp
  on_timestamp-Holds b {storage} risen set =
      let stored : storage ≡ after =
        done-injective set
          (on_timestamp_set_lem b target_block_time e.timestamp (omega arith) small v.valid) in
      rw stored (retargeted-Holds risen)
