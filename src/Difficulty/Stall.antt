-- ===== src/Difficulty/Stall.antt =====
-- What one long gap between two blocks does to the difficulty of pallets/difficulty/src/lib.rs.
use crain.Prelude.{
  ℕ, zero, suc, ◌+◌, ◌*◌, ◌/◌, ◌≤◌, ◌<◌, ◌≡◌, refl, ap, List, [], ◌∷◌, ◌++◌, some, done, arith,
  length, length-append, drop, All, All-append,
}
use crain.Prelude.Machine.{Build, u64_mod}
use crain.Difficulty.Entries.{DifficultyAndTimestamp, Window, Storage, delta, entry_difficulty}
use crain.Difficulty.Loops.{elapsed, total_difficulty}
use crain.Difficulty.Formula.{IsValid, IsBlockTime, pushed, retargeted, pushed-IsWindow}
use crain.Difficulty.Totality.{on_timestamp_set_lem}
use crain.Difficulty.Adjust.{difficulty_for_slow}
use crain.Difficulty.Response.{retargeted-IsValid}
use crain.Difficulty.History.{run}

-- No entry counts with more than a bound.
abbrev pub IsBelow : ℕ → ℕ → Window → Type 0
IsBelow initial bound = All (λ x. entry_difficulty initial x ≤ bound)

total-IsBelow :
    (initial bound : ℕ) (w : Window)
    → IsBelow initial bound w
    → total_difficulty initial w ≤ length w * bound
total-IsBelow initial bound [] h = omega arith
total-IsBelow initial bound (x ∷ w) h = omega (arith, h.0, total-IsBelow initial bound w h.1)

IsBelow-drop :
    (initial bound : ℕ) (w : Window) → IsBelow initial bound w → IsBelow initial bound (drop 1 w)
IsBelow-drop initial bound [] h = tt
IsBelow-drop initial bound (x ∷ w) h = h.1

elapsed-append : (t : ℕ) (w : Window) (e : Window) → elapsed t w ≤ elapsed t (w ++ e)
elapsed-append t [] e = omega arith
elapsed-append t (x ∷ []) e = omega arith
elapsed-append t (x ∷ y ∷ w) e = omega (arith, elapsed-append t (y ∷ w) e)

elapsed-drop : (t k : ℕ) (w : Window) → elapsed t (drop k w) ≤ elapsed t w
elapsed-drop t zero w = omega arith
elapsed-drop t (suc k) [] = omega arith
elapsed-drop t (suc zero) (x ∷ []) = omega arith
elapsed-drop t (suc (suc k)) (x ∷ []) = omega arith
elapsed-drop t (suc k) (x ∷ y ∷ w) = omega (arith, elapsed-drop t k (y ∷ w))

drop-append : (k : ℕ) (w e : Window) → k ≤ length w → drop k (w ++ e) ≡ drop k w ++ e
drop-append zero w e h = refl
drop-append (suc k) [] e h = absurd (omega arith)
drop-append (suc k) (x ∷ w) e h = drop-append k w e (omega arith)

drop-last : (k : ℕ) (w e : Window) → length w ≡ k → drop k (w ++ e) ≡ e
drop-last zero [] e h = refl
drop-last zero (x ∷ w) e h = absurd (omega arith)
drop-last (suc k) [] e h = absurd (omega arith)
drop-last (suc k) (x ∷ w) e h = drop-last k w e (omega arith)

-- The pushed window, from the place `k` on.
drop-pushed :
    (k : ℕ) (w e : Window) → suc k ≤ length w → drop k (drop 1 w ++ e) ≡ drop (suc k) w ++ e
drop-pushed k [] e h = absurd (omega arith)
drop-pushed k (x ∷ w) e h = drop-append k w e (omega arith)

-- From the place `k` on, the window spans four target windows or more.
pub record IsStalled (block_time bound k : ℕ) (s : Storage) : Type 0 where
  pub valid : IsValid s
  pub gap : 240 * block_time ≤ elapsed block_time (drop k s.past_difficulties_and_timestamps)
  pub below : IsBelow s.initial_difficulty bound s.past_difficulties_and_timestamps
  pub current : s.current_difficulty ≤ bound

module _ (b : Build) (block_time bound : ℕ) (h : IsBlockTime block_time) (large : 6 ≤ bound) where
  -- A call after which the window spans so much time halves the bound.
  slow_call :
      (now k : ℕ) {s : Storage}
      → now < u64_mod
      → IsValid s
      → IsBelow s.initial_difficulty bound s.past_difficulties_and_timestamps
      → s.current_difficulty ≤ bound
      → 240 * block_time ≤ elapsed block_time (drop k (pushed now s))
      → ((retargeted block_time now s).current_difficulty ≤ bound / 2)
        × IsStalled block_time bound k (retargeted block_time now s)
  unfolding entry_difficulty
  slow_call now k {s} small v below current gap = (
    halved,
    record {
      valid = retargeted-IsValid block_time now small v;
      gap = gap;
      below = kept;
      current = omega (arith, halved);
    },
  )
    where
      kept : IsBelow s.initial_difficulty bound (pushed now s)
      kept =
          All-append (λ x. entry_difficulty s.initial_difficulty x ≤ bound)
            (drop 1 s.past_difficulties_and_timestamps)
            (some (record { difficulty = s.current_difficulty; timestamp = now }) ∷ [])
            (IsBelow-drop s.initial_difficulty bound s.past_difficulties_and_timestamps below)
            (current, tt)

      sum : total_difficulty s.initial_difficulty (pushed now s) ≤ 60 * bound
      sum =
          rw (← (pushed-IsWindow now small v).0)
            (total-IsBelow s.initial_difficulty bound (pushed now s) kept)

      halved : (retargeted block_time now s).current_difficulty ≤ bound / 2
      halved = omega (
        arith,
        sum,
        difficulty_for_slow block_time (elapsed block_time (pushed now s))
            (total_difficulty s.initial_difficulty (pushed now s)) h.0
            (omega (arith, gap, elapsed-drop block_time k (pushed now s))),
      )

  stalled_run :
      (times : List ℕ) (k : ℕ) {s : Storage}
      → All (λ now. now < u64_mod) times
      → length times ≤ k
      → k ≤ 60
      → IsStalled block_time bound k s
      → s.current_difficulty ≤ bound / 2
      → (s' : Storage) × (run b block_time times s ≡ done s') × (s'.current_difficulty ≤ bound / 2)
  unfolding run
  stalled_run [] k {s} a l m i c = (s, refl, c)
  stalled_run (now ∷ later) zero {s} a l m i c = absurd (omega arith)
  stalled_run (now ∷ later) (suc k) {s} a l m i c =
      let past = s.past_difficulties_and_timestamps in
      let new : Window =
        some (record { difficulty = s.current_difficulty; timestamp = now }) ∷ [] in
      let gap : 240 * block_time ≤ elapsed block_time (drop k (pushed now s)) =
        rw (drop-pushed k past new (omega (arith, i.valid.full)))
          (omega (arith, i.gap, elapsed-append block_time (drop (suc k) past) new)) in
      let (halved, next) = slow_call now k a.0 i.valid i.below i.current gap in
      let (s', r, q) =
        stalled_run later k {s = retargeted block_time now s} a.1 (omega arith) (omega arith) next
          halved in
      (s', rw (on_timestamp_set_lem b block_time now h a.0 i.valid) r, q)

  -- On valid storage in which no difficulty is above a bound of at least 6, a block that comes four
  -- target windows (240 block times) or more after the last one halves that bound, in every build:
  -- the difficulty is at most half of it after that block and after each of the next 58 blocks,
  -- whatever their timestamps say.
  pub gap_halves :
      (now : ℕ) (later : List ℕ) (older : Window) (d : DifficultyAndTimestamp) {s : Storage}
      → IsValid s
      → IsBelow s.initial_difficulty bound s.past_difficulties_and_timestamps
      → s.current_difficulty ≤ bound
      → s.past_difficulties_and_timestamps ≡ older ++ (some d ∷ [])
      → d.timestamp + 240 * block_time ≤ now
      → All (λ time. time < u64_mod) (now ∷ later)
      → length later ≤ 58
      → (s' : Storage) × (run b block_time (now ∷ later) s ≡ done s')
        × (s'.current_difficulty ≤ bound / 2)
  unfolding run delta
  gap_halves now later older d {s} v below current e gap a l =
      let new : Window =
        some (record { difficulty = s.current_difficulty; timestamp = now }) ∷ [] in
      let count : length older ≡ 59 =
        omega (arith, v.full, ap length e, length-append {0} older (some d ∷ [])) in
      let wide : 240 * block_time ≤ elapsed block_time (drop 58 (pushed now s)) =
        rw
          (
            drop-pushed 58 s.past_difficulties_and_timestamps new (omega (arith, v.full)),
            e,
            drop-last 59 older (some d ∷ []) count,
          )
          (omega arith) in
      let (halved, next) = slow_call now 58 a.0 v below current wide in
      let (s', r, q) =
        stalled_run later 58 {s = retargeted block_time now s} a.1 l (omega arith) next halved in
      (s', rw (on_timestamp_set_lem b block_time now h a.0 v) r, q)
