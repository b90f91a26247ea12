-- ===== src/Chain/Direction.antt =====
-- Which way a call of `on_timestamp_set` of pallets/difficulty/src/lib.rs moves the difficulty, by
-- the timestamps of the blocks.
use mathlib.Core.List.{append_assoc}
use crain.Prelude.{
  ℕ, drop, ◌+◌, ◌-◌, ◌*◌, ◌/◌, ◌≤◌, ◌<◌, ◌≡◌, refl, ap, ◌∙◌, ◌⊎◌, inl, inr, [], ◌∷◌, ◌++◌, map, min,
  max, none, some, done, arith, Option, Bool-cases, ltb, ltb→lt, ltb_false→le, replicate,
}
use crain.Prelude.Machine.{Build, u64_mod}
use crain.Primitives.{min_difficulty, max_difficulty}
use crain.Difficulty.{DifficultyAndTimestamp, Storage, Window, on_timestamp_set}
use crain.Difficulty.Loops.{elapsed, total_difficulty, total-missing}
use crain.Difficulty.Formula.{
  IsValid, IsBlockTime, adjusted_span, difficulty_for, pushed, retargeted,
}
use crain.Difficulty.Totality.{on_timestamp_set_lem}
use crain.Difficulty.Adjust.{scaled_bounds}
use crain.Chain.History.{
  History, Rises, first_stamp, last_stamp, work_in, elapsed-some, elapsed-missing, total-some,
}

-- The mean of sixty difficulties that add up to `sum`, rounded down, and within the bounds.
abbrev pub mean : ℕ → ℕ
mean sum = min max_difficulty (max min_difficulty (sum / 60))

module _ (block_time measured sum : ℕ) (p : 0 < block_time) where
  abbrev span : ℕ
  span = adjusted_span (60 * block_time) (max 1 measured)

  fast : measured ≤ 60 * block_time → mean sum ≤ difficulty_for block_time measured sum
  fast h = omega (
    arith,
    scaled_bounds (max min_difficulty sum) 40 60 block_time span p (omega arith) (omega arith)
        (omega arith),
  )

  slow : 60 * block_time ≤ measured → difficulty_for block_time measured sum ≤ mean sum
  slow h = omega (
    arith,
    scaled_bounds (max min_difficulty sum) 60 120 block_time span p (omega arith) (omega arith)
        (omega arith),
  )

  direction :
      (measured < 60 * block_time) × (mean sum ≤ difficulty_for block_time measured sum)
      ⊎ (measured ≡ 60 * block_time) × (difficulty_for block_time measured sum ≡ mean sum)
      ⊎ (60 * block_time < measured) × (difficulty_for block_time measured sum ≤ mean sum)
  direction = elim (Bool-cases (ltb measured (60 * block_time))) [
    | inl e ↦ let less = ltb→lt measured (60 * block_time) e in inl (less, fast (omega arith))
    | inr e ↦
        let no_less = ltb_false→le measured (60 * block_time) e in
        elim (Bool-cases (ltb (60 * block_time) measured)) [
          | inl f ↦ inr (inr (ltb→lt (60 * block_time) measured f, slow no_less))
          | inr f ↦
              let no_more = ltb_false→le (60 * block_time) measured f in
              inr (inl (omega arith, omega (arith, fast no_more, slow no_less)))
        ]
  ]

-- The entry that a call adds.
abbrev pub added : ℕ → Storage → DifficultyAndTimestamp
added now s = record { difficulty = s.current_difficulty; timestamp = now }

last_stamp-append :
    (h : History) (e : DifficultyAndTimestamp) → last_stamp (h ++ (e ∷ [])) ≡ e.timestamp
last_stamp-append [] e = refl
last_stamp-append (x ∷ []) e = refl
last_stamp-append (x ∷ y ∷ h) e = last_stamp-append (y ∷ h) e

work_in-append :
    (h : History) (e : DifficultyAndTimestamp) → work_in (h ++ (e ∷ [])) ≡ work_in h + e.difficulty
work_in-append [] e = omega arith
work_in-append (x ∷ h) e = omega (arith, work_in-append h e)

map-some-append :
    (h : History) (e : DifficultyAndTimestamp)
    → map some h ++ (some e ∷ []) ≡ map some (h ++ (e ∷ []))
map-some-append [] e = refl
map-some-append (x ∷ h) e = ap (◌∷◌ (some x)) (map-some-append h e)

elapsed-Rises :
    (t missing : ℕ) (h : History) (e : DifficultyAndTimestamp)
    → Rises (h ++ (e ∷ []))
    → elapsed t (replicate missing none ++ map some (h ++ (e ∷ [])))
      ≡ missing * t + (e.timestamp - first_stamp (h ++ (e ∷ [])))
elapsed-Rises t missing [] e r =
    elapsed-missing t missing e [] ∙ ap (λ n. missing * t + n) (elapsed-some t (e ∷ []) tt)
elapsed-Rises t missing (x ∷ h) e r =
    elapsed-missing t missing x (map some (h ++ (e ∷ [])))
    ∙ ap (λ n. missing * t + n)
        (elapsed-some t (x ∷ (h ++ (e ∷ []))) r
          ∙ ap (λ n. n - x.timestamp) (last_stamp-append (x ∷ h) e))

module _ (t now missing : ℕ) (dropped : Option DifficultyAndTimestamp) (kept : History)
    (s : Storage)
    (held : s.past_difficulties_and_timestamps
      ≡ dropped ∷ (replicate missing none ++ map some kept)) where
  pushed_history : pushed now s ≡ replicate missing none ++ map some (kept ++ (added now s ∷ []))
  pushed_history =
      ap (λ (w : Window). drop 1 w ++ (some (added now s) ∷ [])) held
      ∙ append_assoc (replicate missing none) (map some kept) (some (added now s) ∷ [])
      ∙ ap (λ (w : Window). replicate missing none ++ w) (map-some-append kept (added now s))

  time_lem :
      Rises (kept ++ (added now s ∷ []))
      → elapsed t (pushed now s) ≡ missing * t + (now - first_stamp (kept ++ (added now s ∷ [])))
  time_lem r = ap (elapsed t) pushed_history ∙ elapsed-Rises t missing kept (added now s) r

  sum_lem :
      total_difficulty s.initial_difficulty (pushed now s)
      ≡ missing * s.initial_difficulty + (work_in kept + s.current_difficulty)
  sum_lem =
      ap (total_difficulty s.initial_difficulty) pushed_history
      ∙ total-missing s.initial_difficulty missing (map some (kept ++ (added now s ∷ [])))
      ∙ ap (λ n. missing * s.initial_difficulty + n)
          (total-some s.initial_difficulty (kept ++ (added now s ∷ []))
            ∙ work_in-append kept (added now s))

-- On valid storage whose array holds, behind its oldest entry, some missing entries and then blocks
-- whose timestamps do not fall, nor does the new one: the next difficulty is, in every build, the
-- mean of the sixty difficulties then stored, rounded down and within the bounds, if the time from
-- the first of those blocks to the new one is sixty block times, at least that mean if it is less,
-- and at most that mean if it is more; a missing entry counts as one block time and the initial
-- difficulty.
pub on_timestamp_set_direction :
    (b : Build) (block_time now missing : ℕ) (dropped : Option DifficultyAndTimestamp)
    (kept : History) {s : Storage}
    → IsBlockTime block_time
    → now < u64_mod
    → IsValid s
    → s.past_difficulties_and_timestamps ≡ dropped ∷ (replicate missing none ++ map some kept)
    → Rises (kept ++ (added now s ∷ []))
    → let m = mean (missing * s.initial_difficulty + (work_in kept + s.current_difficulty)) in
      let time = missing * block_time + (now - first_stamp (kept ++ (added now s ∷ []))) in
      (s' : Storage) × (on_timestamp_set b block_time now s ≡ done s')
      × ((time < 60 * block_time) × (m ≤ s'.current_difficulty)
          ⊎ (time ≡ 60 * block_time) × (s'.current_difficulty ≡ m)
          ⊎ (60 * block_time < time) × (s'.current_difficulty ≤ m))
on_timestamp_set_direction b block_time now missing dropped kept {s} h k v held r = (
  retargeted block_time now s,
  on_timestamp_set_lem b block_time now h k v,
  rw
      (
        ← time_lem block_time now missing dropped kept s held r,
        ← sum_lem block_time now missing dropped kept s held,
      )
      (direction block_time (elapsed block_time (pushed now s))
        (total_difficulty s.initial_difficulty (pushed now s)) h.0),
)
