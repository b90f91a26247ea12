-- ===== src/Difficulty/Response.antt =====
-- What a block's timestamp does to the stored difficulty (pallets/difficulty/src/lib.rs).
use crain.Prelude.{
  ℕ, zero, suc, ◌+◌, ◌*◌, ◌/◌, ◌≤◌, ◌<◌, ◌≡◌, refl, ap, ◌∙◌, min, max, [], ◌∷◌, ◌++◌, some, none,
  done, arith, length, drop, All,
}
use crain.Prelude.Machine.{Build, u64_mod}
use crain.Primitives.{block_time, difficulty_adjust_window, min_difficulty, max_difficulty}
use crain.Difficulty.Entries.{Window, Storage, delta, entry_difficulty}
use crain.Difficulty.Retarget.{on_timestamp_set}
use crain.Difficulty.Loops.{elapsed, total_difficulty}
use crain.Difficulty.Formula.{
  IsValid, IsBlockTime, IsEntry, difficulty_for, pushed, retargeted, pushed-IsWindow,
  total_difficulty-le,
}
use crain.Difficulty.Totality.{on_timestamp_set_lem}
use crain.Difficulty.Adjust.{difficulty_for-antitone, difficulty_for_bounds}

pub retargeted-IsValid :
    (block_time now : ℕ) {s : Storage}
    → now < u64_mod
    → IsValid s
    → IsValid (retargeted block_time now s)
retargeted-IsValid block_time now k v = record {
  full = (pushed-IsWindow now k v).0;
  entries = (pushed-IsWindow now k v).1;
  current_capped = omega arith;
  initial_capped = v.initial_capped;
}

-- On valid storage, with a positive u64 block time and a u64 timestamp, the call returns in every
-- build; the new storage is valid, and its difficulty lies between the minimum and the maximum.
pub on_timestamp_set-IsValid :
    (b : Build) (block_time now : ℕ) {s : Storage}
    → IsBlockTime block_time
    → now < u64_mod
    → IsValid s
    → (s' : Storage) × (on_timestamp_set b block_time now s ≡ done s')
      × IsValid s'
      × (min_difficulty ≤ s'.current_difficulty)
      × (s'.current_difficulty ≤ max_difficulty)
on_timestamp_set-IsValid b block_time now {s} h k v = (
  retargeted block_time now s,
  on_timestamp_set_lem b block_time now h k v,
  retargeted-IsValid block_time now k v,
  omega arith,
  omega arith,
)

-- Whatever the timestamps say, one call on valid storage stores a difficulty of at most 3/2 of the
-- average of the sixty entries (rounded down, the minimum allowed), and of at least 1/2 of it.
pub on_timestamp_set_rate :
    (b : Build) (block_time now : ℕ) {s : Storage}
    → IsBlockTime block_time
    → now < u64_mod
    → IsValid s
    → let sum = total_difficulty s.initial_difficulty (pushed now s) in
      (s' : Storage) × (on_timestamp_set b block_time now s ≡ done s')
      × (sum / 120 ≤ s'.current_difficulty)
      × (s'.current_difficulty ≤ max min_difficulty (sum / 40))
on_timestamp_set_rate b block_time now {s} h k v =
    (retargeted block_time now s, on_timestamp_set_lem b block_time now h k v, range.0, range.1)
  where
    sum : ℕ
    sum = total_difficulty s.initial_difficulty (pushed now s)

    w : (length (pushed now s) ≡ difficulty_adjust_window) × All IsEntry (pushed now s)
    w = pushed-IsWindow now k v

    range :
        (sum / 120 ≤ difficulty_for block_time (elapsed block_time (pushed now s)) sum)
        × (difficulty_for block_time (elapsed block_time (pushed now s)) sum
            ≤ max min_difficulty (sum / 40))
    range = difficulty_for_bounds block_time (elapsed block_time (pushed now s)) sum h.0 (
        omega (
          arith,
          w.0,
          total_difficulty-le s.initial_difficulty (pushed now s) v.initial_capped w.1,
        ))

-- A later last timestamp spans no less time, and counts the same difficulties.
elapsed_mono :
    (t d now now' : ℕ) (w : Window)
    → now ≤ now'
    → elapsed t (w ++ (some (record { difficulty = d; timestamp = now }) ∷ []))
      ≤ elapsed t (w ++ (some (record { difficulty = d; timestamp = now' }) ∷ []))
unfolding delta
elapsed_mono t d now now' [] h = omega arith
elapsed_mono t d now now' (none ∷ []) h = omega arith
elapsed_mono t d now now' (some x ∷ []) h = omega arith
elapsed_mono t d now now' (x ∷ y ∷ w) h = omega (arith, elapsed_mono t d now now' (y ∷ w) h)

total_difficulty_same :
    (initial d now now' : ℕ) (w : Window)
    → total_difficulty initial (w ++ (some (record { difficulty = d; timestamp = now }) ∷ []))
      ≡ total_difficulty initial (w ++ (some (record { difficulty = d; timestamp = now' }) ∷ []))
unfolding entry_difficulty
total_difficulty_same initial d now now' [] = refl
total_difficulty_same initial d now now' (x ∷ w) =
    ap (λ n. entry_difficulty initial x + n) (total_difficulty_same initial d now now' w)

-- The later a block's timestamp, the lower the difficulty: of two calls on the same valid storage,
-- the one with the later timestamp stores no higher difficulty, and both return.
pub on_timestamp_set_antitone :
    (b : Build) (block_time now now' : ℕ) {s : Storage}
    → IsBlockTime block_time
    → now ≤ now'
    → now' < u64_mod
    → IsValid s
    → (early late : Storage) × (on_timestamp_set b block_time now s ≡ done early)
      × (on_timestamp_set b block_time now' s ≡ done late)
      × (late.current_difficulty ≤ early.current_difficulty)
on_timestamp_set_antitone b block_time now now' {s} h le k v = (
  retargeted block_time now s,
  retargeted block_time now' s,
  on_timestamp_set_lem b block_time now h (omega arith) v,
  on_timestamp_set_lem b block_time now' h k v,
  rw (total_difficulty_same s.initial_difficulty s.current_difficulty now' now kept) (
      difficulty_for-antitone block_time (elapsed block_time (pushed now s))
        (elapsed block_time (pushed now' s)) (total_difficulty s.initial_difficulty (pushed now s))
        h.0 (elapsed_mono block_time s.current_difficulty now now' kept le)),
)
  where
    kept : Window
    kept = drop 1 s.past_difficulties_and_timestamps

-- A window whose entries all have difficulty `d`, and whose timestamps are exactly `t` apart.
unfoldable pub on_schedule : ℕ → ℕ → ℕ → ℕ → Window
on_schedule t d start zero = []
on_schedule t d start (suc n) =
    some (record { difficulty = d; timestamp = start }) ∷ on_schedule t d (start + t) n

elapsed-on_schedule : (t d start n : ℕ) → elapsed t (on_schedule t d start (suc n)) ≡ n * t
unfolding delta on_schedule
elapsed-on_schedule t d start zero = omega arith
elapsed-on_schedule t d start (suc n) = omega (arith, elapsed-on_schedule t d (start + t) n)

total_difficulty-on_schedule :
    (initial t d start n : ℕ) → total_difficulty initial (on_schedule t d start n) ≡ n * d
unfolding entry_difficulty on_schedule
total_difficulty-on_schedule initial t d start zero = omega arith
total_difficulty-on_schedule initial t d start (suc n) =
    omega (arith, total_difficulty-on_schedule initial t d (start + t) n)

on_schedule_next :
    (t d start n : ℕ)
    → on_schedule t d start n ++ (some (record { difficulty = d; timestamp = start + n * t }) ∷ [])
      ≡ on_schedule t d start (suc n)
unfolding on_schedule
on_schedule_next t d start zero =
    ap (λ k. some (record { difficulty = d; timestamp = k }) ∷ []) (omega arith)
on_schedule_next t d start (suc n) =
    ap (λ w. some (record { difficulty = d; timestamp = start }) ∷ w)
      (ap
          (λ k.
            on_schedule t d (start + t) n ++ (some (record { difficulty = d; timestamp = k }) ∷ []))
          (omega arith)
        ∙ on_schedule_next t d (start + t) n)

drop-on_schedule :
    (t d start n : ℕ) → drop 1 (on_schedule t d start (suc n)) ≡ on_schedule t d (start + t) n
unfolding on_schedule
drop-on_schedule t d start n = refl

-- Sixty blocks that came exactly on the target of one minute do not keep their difficulty `d`, if
-- that is at least 179 and below the maximum: the next such block sets it to 180/179 of `d` (rounded
-- down, and at most the maximum), which is more, for sixty entries hold only fifty-nine gaps.
on_timestamp_set_drift :
    (b : Build) (d start : ℕ) {s : Storage}
    → IsValid s
    → 179 ≤ d
    → d < max_difficulty
    → s.past_difficulties_and_timestamps ≡ on_schedule block_time d start 60
    → s.current_difficulty ≡ d
    → start + 60 * block_time < u64_mod
    → (s' : Storage) × (on_timestamp_set b block_time (start + 60 * block_time) s ≡ done s')
      × (s'.current_difficulty ≡ min max_difficulty (180 * d / 179))
      × (d < s'.current_difficulty)
on_timestamp_set_drift b d start {s} v large small e c k = (
  retargeted block_time now s,
  on_timestamp_set_lem b block_time now (omega arith) k v,
  drifted,
  omega (arith, drifted),
)
  where
    now : ℕ
    now = start + 60 * block_time

    w : pushed now s ≡ on_schedule block_time d (start + block_time) 60
    w =
        rw (e, c, drop-on_schedule block_time d start 59)
          (ap
              (λ k.
                on_schedule block_time d (start + block_time) 59
                ++ (some (record { difficulty = d; timestamp = k }) ∷ []))
              (omega arith)
            ∙ on_schedule_next block_time d (start + block_time) 59)

    drifted :
        difficulty_for block_time
          (elapsed block_time (pushed now s))
          (total_difficulty s.initial_difficulty (pushed now s))
        ≡ min max_difficulty (180 * d / 179)
    drifted =
        rw
          (
            w,
            elapsed-on_schedule block_time d (start + block_time) 59,
            total_difficulty-on_schedule s.initial_difficulty block_time d (start + block_time) 60,
          )
          (omega arith)
