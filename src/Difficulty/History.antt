-- ===== src/Difficulty/History.antt =====
-- Many calls of `on_timestamp_set` (pallets/difficulty/src/lib.rs): the array is the recent history.
use mathlib.Core.Option
use mathlib.Core.List.{append-nil, append_assoc, map-append}
use crain.Prelude.{
  ℕ, suc, ◌≤◌, ◌<◌, ◌≡◌, refl, ap, sym, ◌∙◌, List, [], ◌∷◌, ◌++◌, map, Option, some, none, Outcome,
  done, ◌>>=◌, arith, length, drop, length-replicate, All, All-replicate,
}
use crain.Prelude.Machine.{Build, u64_mod}
use crain.Primitives.{max_difficulty}
use crain.Difficulty.Entries.{DifficultyAndTimestamp, Window, Storage}
use crain.Difficulty.Retarget.{genesis, on_timestamp_set}
use crain.Difficulty.Formula.{IsValid, IsBlockTime, IsEntry, pushed, retargeted}
use crain.Difficulty.Totality.{on_timestamp_set_lem}
use crain.Difficulty.Response.{retargeted-IsValid}

-- The timestamps that the entries carry.
abbrev pub stamps : Window → List (Option ℕ)
stamps = map (Option.map (λ (d : DifficultyAndTimestamp). d.timestamp))

-- One call for each block, in order.
unfoldable pub run : Build → ℕ → List ℕ → Storage → Outcome Storage
run b block_time [] s = done s
run b block_time (now ∷ later) s =
    on_timestamp_set b block_time now s >>= λ s'. run b block_time later s'

-- The storage of a new chain is valid, if the configured difficulty is within the maximum.
pub genesis-IsValid : (initial : ℕ) → initial ≤ max_difficulty → IsValid (genesis initial)
unfolding genesis
genesis-IsValid initial h = record {
  full = length-replicate {A = Option DifficultyAndTimestamp} 60 none;
  entries = All-replicate IsEntry 60 none tt;
  current_capped = h;
  initial_capped = h;
}

drop_one_more {ℓ} :
    {A : Type ℓ} (n : ℕ) (y : A) (xs ys : List A)
    → 0 < length xs
    → drop n ((drop 1 xs ++ (y ∷ [])) ++ ys) ≡ drop (suc n) (xs ++ (y ∷ ys))
drop_one_more n y [] ys h = absurd (omega arith)
drop_one_more n y (x ∷ xs) ys h = ap (drop n) (append_assoc xs (y ∷ []) ys)

stamps-pushed :
    (now : ℕ) (s : Storage)
    → stamps (pushed now s) ≡ drop 1 (stamps s.past_difficulties_and_timestamps) ++ (some now ∷ [])
stamps-pushed now s = go s.past_difficulties_and_timestamps
  where
    new : Option DifficultyAndTimestamp
    new = some (record { difficulty = s.current_difficulty; timestamp = now })

    go : (w : Window) → stamps (drop 1 w ++ (new ∷ [])) ≡ drop 1 (stamps w) ++ (some now ∷ [])
    go [] = refl
    go (x ∷ w) = map-append _ w (new ∷ [])

length-stamps : (w : Window) → length (stamps w) ≡ length w
length-stamps [] = refl
length-stamps (x ∷ w) = ap suc (length-stamps w)

-- From valid storage any run of blocks with u64 timestamps succeeds, in every build; the storage
-- stays valid, and the array then carries the timestamps of the last sixty calls, oldest first,
-- after what it carried before.
pub run_window :
    (b : Build) (block_time : ℕ) (times : List ℕ) {s : Storage}
    → IsBlockTime block_time
    → All (λ now. now < u64_mod) times
    → IsValid s
    → (s' : Storage) × (run b block_time times s ≡ done s')
      × IsValid s'
      × (stamps s'.past_difficulties_and_timestamps
          ≡ drop (length times) (stamps s.past_difficulties_and_timestamps ++ map some times))
unfolding run
run_window b block_time [] {s} h a v = (s, refl, v, sym (append-nil _))
run_window b block_time (now ∷ later) {s} h a v =
    let (s', r, v', w) =
      run_window b block_time later {s = retargeted block_time now s} h a.1
        (retargeted-IsValid block_time now a.0 v) in
    (s', rw (on_timestamp_set_lem b block_time now h a.0 v) r, v', w ∙ step)
  where
    old : List (Option ℕ)
    old = stamps s.past_difficulties_and_timestamps

    step :
        drop (length later) (stamps (pushed now s) ++ map some later)
        ≡ drop (suc (length later)) (old ++ (some now ∷ map some later))
    step = rw (stamps-pushed now s) (
        drop_one_more (length later) (some now) old (map some later)
          (omega (arith, v.full, length-stamps s.past_difficulties_and_timestamps)))
