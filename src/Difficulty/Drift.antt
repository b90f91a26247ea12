-- ===== src/Difficulty/Drift.antt =====
-- Blocks that come exactly on target drive the difficulty of pallets/difficulty/src/lib.rs up: sixty
-- entries hold fifty-nine gaps, but the span is measured against sixty block times.
use crain.Prelude.{
  ℕ, zero, suc, ◌+◌, ◌-◌, ◌*◌, ◌/◌, ◌≤◌, ◌<◌, ◌≡◌, refl, ap, min, [], ◌∷◌, List, done, arith, drop,
}
use crain.Prelude.Machine.{Build, u64_mod}
use crain.Primitives.{block_time, max_difficulty}
use crain.Difficulty.Entries.{Storage}
use crain.Difficulty.Retarget.{genesis}
use crain.Difficulty.Loops.{elapsed, total_difficulty, total-missing}
use crain.Difficulty.Formula.{IsValid, difficulty_for, pushed, retargeted, pushed-IsWindow}
use crain.Difficulty.Totality.{on_timestamp_set_lem}
use crain.Difficulty.Response.{retargeted-IsValid}
use crain.Difficulty.History.{run, genesis-IsValid}
use crain.Difficulty.Climb.{
  Spaced, elapsed-Spaced, Spaced-missing, Climbs, Climbs-append, total-append, oldest, Climbs-drop,
  Spaced-next, Climbs-missing,
}

-- The difficulty for fifty-nine block times and a sum.
abbrev drifted : ℕ → ℕ
drifted sum = difficulty_for block_time (59 * block_time) sum

drifted_mono : (x y : ℕ) → x ≤ y → drifted x ≤ drifted y
drifted_mono x y h = omega arith

drifted_add :
    (sum n : ℕ) → 60 * 179 ≤ sum → min max_difficulty (drifted sum + n / 60) ≤ drifted (sum + n)
drifted_add sum n h = omega arith

-- What is above a sixtieth of the sum comes in, so the sum grows, up to the maximum.
drifted_grows :
    (x sum n : ℕ)
    → 179 ≤ x
    → 60 * x ≤ sum
    → x ≤ drifted sum
    → drifted (sum + suc n) ≤ drifted (sum - x + drifted sum + n)
drifted_grows x sum n h k l = omega arith

-- Storage for which a next block at `now` comes exactly on target.
pub record IsOnTarget (now : ℕ) (s : Storage) : Type 0 where
  pub valid : IsValid s
  pub spaced : Spaced (pushed now s)
  pub climbs :
      Climbs s.initial_difficulty 179 s.past_difficulties_and_timestamps s.current_difficulty
  pub kept :
      s.current_difficulty
      ≤ drifted (total_difficulty s.initial_difficulty s.past_difficulties_and_timestamps)

module _ {now : ℕ} {s : Storage} (small : now < u64_mod) (o : IsOnTarget now s) where
  abbrev sum : ℕ
  sum = total_difficulty s.initial_difficulty s.past_difficulties_and_timestamps

  abbrev after : Storage
  after = retargeted block_time now s

  abbrev new_sum : ℕ
  new_sum = total_difficulty s.initial_difficulty (pushed now s)

  new_sum_lem :
      new_sum
      ≡ total_difficulty s.initial_difficulty (drop 1 s.past_difficulties_and_timestamps)
        + s.current_difficulty
  new_sum_lem =
      total-append s.initial_difficulty (drop 1 s.past_difficulties_and_timestamps)
        (record { difficulty = s.current_difficulty; timestamp = now })

  sum-le : sum ≤ new_sum
  sum-le =
      let (x, e, h, k, l) =
        oldest s.initial_difficulty s.past_difficulties_and_timestamps s.current_difficulty
          o.valid.full o.climbs in
      omega (arith, new_sum_lem, e, l)

  after_current : after.current_difficulty ≡ drifted new_sum
  after_current =
      let span : elapsed block_time (pushed now s) ≡ 59 * block_time =
        omega
          (arith, elapsed-Spaced (pushed now s) o.spaced, (pushed-IsWindow now small o.valid).0) in
      ap (λ m. difficulty_for block_time m new_sum) span

  rises : s.current_difficulty ≤ after.current_difficulty
  rises = omega (arith, after_current, o.kept, drifted_mono sum new_sum sum-le)

  after-IsOnTarget : IsOnTarget (now + block_time) after
  after-IsOnTarget = record {
    valid = retargeted-IsValid block_time now small o.valid;
    spaced =
        Spaced-next (drop 1 s.past_difficulties_and_timestamps)
          (record { difficulty = s.current_difficulty; timestamp = now })
          (record { difficulty = after.current_difficulty; timestamp = now + block_time }) o.spaced
          refl;
    climbs =
        Climbs-append s.initial_difficulty 179 (drop 1 s.past_difficulties_and_timestamps)
          (record { difficulty = s.current_difficulty; timestamp = now }) after.current_difficulty
          (Climbs-drop s.initial_difficulty 179 s.past_difficulties_and_timestamps
            s.current_difficulty o.climbs)
          rises;
    kept = omega (arith, after_current);
  }

-- Timestamps that are one block time apart.
abbrev pub schedule : ℕ → ℕ → List ℕ
schedule now zero = []
schedule now (suc n) = now ∷ schedule (now + block_time) n

-- Once a difficulty has been set on target, each block adds to the sum.
climbs_from :
    (b : Build) (n : ℕ) {now : ℕ} {s : Storage}
    → IsOnTarget now s
    → s.current_difficulty
      ≡ drifted (total_difficulty s.initial_difficulty s.past_difficulties_and_timestamps)
    → now + n * block_time < u64_mod
    → (s' : Storage) × (run b block_time (schedule now n) s ≡ done s')
      × (drifted (total_difficulty s.initial_difficulty s.past_difficulties_and_timestamps + n)
          ≤ s'.current_difficulty)
unfolding run
climbs_from b zero {now} {s} o e h = (s, refl, omega (arith, e))
climbs_from b (suc n) {now} {s} o e h =
    let small : now < u64_mod = omega arith in
    let (s', r, g) =
      climbs_from b n (after-IsOnTarget small o) (after_current small o) (omega arith) in
    let (x, split, large, part, low) =
      oldest s.initial_difficulty s.past_difficulties_and_timestamps s.current_difficulty
        o.valid.full o.climbs in
    let next : new_sum small o ≡ sum small o - x + drifted (sum small o) =
      omega (arith, new_sum_lem small o, split, e) in
    (
      s',
      rw (on_timestamp_set_lem b block_time now (omega arith) small o.valid) r,
      omega (
        arith,
        drifted_grows x (sum small o) n large part (omega (arith, low, e)),
        ap (λ m. drifted (m + n)) next,
        g,
      ),
    )

-- From such storage, after `n + 1` blocks on target.
on_target_climbs_from :
    (b : Build) (n : ℕ) {now : ℕ} {s : Storage}
    → IsOnTarget now s
    → now + suc n * block_time < u64_mod
    → (s' : Storage) × (run b block_time (schedule now (suc n)) s ≡ done s')
      × (min max_difficulty (s.current_difficulty + n / 60) ≤ s'.current_difficulty)
unfolding run
on_target_climbs_from b n {now} {s} o h =
    let small : now < u64_mod = omega arith in
    let (s', r, g) =
      climbs_from b n (after-IsOnTarget small o) (after_current small o) (omega arith) in
    let (x, split, large, part, low) =
      oldest s.initial_difficulty s.past_difficulties_and_timestamps s.current_difficulty
        o.valid.full o.climbs in
    (
      s',
      rw (on_timestamp_set_lem b block_time now (omega arith) small o.valid) r,
      omega (
        arith,
        o.kept,
        sum-le small o,
        drifted_mono (sum small o) (new_sum small o) (sum-le small o),
        drifted_add (new_sum small o) n (omega (arith, large, part, sum-le small o)),
        g,
      ),
    )

genesis-IsOnTarget :
    (initial now : ℕ) → 179 ≤ initial → initial ≤ max_difficulty → IsOnTarget now (genesis initial)
unfolding genesis
genesis-IsOnTarget initial now l h = record {
  valid = genesis-IsValid initial h;
  spaced = Spaced-missing 59 (record { difficulty = initial; timestamp = now });
  climbs = Climbs-missing initial 179 60 l;
  kept = omega (arith, total-missing initial 60 []);
}

-- From the genesis with an initial difficulty of at least 179 and at most the maximum, blocks that
-- come exactly one target block time apart, the first at any time, drive the difficulty up, in every
-- build: after `n + 1` of them it is by at least a sixtieth of `n` above the initial one, or at the
-- maximum.
pub on_target_climbs :
    (b : Build) (initial now n : ℕ)
    → 179 ≤ initial
    → initial ≤ max_difficulty
    → now + suc n * block_time < u64_mod
    → (s' : Storage) × (run b block_time (schedule now (suc n)) (genesis initial) ≡ done s')
      × (min max_difficulty (initial + n / 60) ≤ s'.current_difficulty)
unfolding genesis
on_target_climbs b initial now n l h k =
    on_target_climbs_from b n (genesis-IsOnTarget initial now l h) k
