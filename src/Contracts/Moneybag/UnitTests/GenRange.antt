-- ===== src/Contracts/Moneybag/UnitTests/GenRange.antt =====
-- When the unit test of `gen_range` of contracts/moneybag/src/lib.rs passes.
use crain.Prelude.{
  ℕ, zero, suc, ◌+◌, ◌%◌, ◌≤◌, ◌<◌, ◌≡◌, refl, sym, ap, ◌∙◌, ◌↔◌, ◌⊎◌, inl, inr, Outcome,
  Bool-cases, ltb, lt→ltb, ltb→lt, ==_iff, ◌==◌, done, panic, ◌>>=◌, ◌>>◌, arith,
}
use crain.Prelude.Machine.{Build}
use crain.Contracts.Moneybag.{Environment}
use crain.Contracts.Moneybag.Prize.{gen_range_lem}
use crain.Contracts.Moneybag.UnitTests.{gen_range_rounds, gen_range_works}
use crain.Ink.Testing.{assert_true, assert-true, asserted}

-- The number of a round of `gen_range_works`.
abbrev pub drawn : (ℕ → Environment) → ℕ → ℕ
drawn env i = (env i).next_u64 ((env i).random 0) % 11

abbrev pub IsInside : (ℕ → Environment) → ℕ → Type 0
IsInside env i = (0 < drawn env i) × (drawn env i < 10)

round_lem :
    (b : Build) (env : ℕ → Environment) (i rounds : ℕ)
    → gen_range_rounds b env i (suc rounds) ≡ (
        assert_true (ltb 0 (drawn env i))
        >> (assert_true (ltb (drawn env i) 10) >> gen_range_rounds b env (suc i) rounds))
unfolding gen_range_rounds
round_lem b env i rounds =
    ap
      (λ o. o >>= λ n.
        assert_true (ltb 0 n) >> (assert_true (ltb n 10) >> gen_range_rounds b env (suc i) rounds))
      (gen_range_lem b 0 10 ((env i).next_u64 ((env i).random 0)) (omega arith) (omega arith)
        ∙ ap done {y = drawn env i} (omega arith))

rounds-IsInside :
    (b : Build) (env : ℕ → Environment) (i rounds : ℕ)
    → gen_range_rounds b env i rounds ≡ done tt
    → (j : ℕ) → i ≤ j
    → j < i + rounds
    → IsInside env j
rounds-IsInside b env i zero h j l k = absurd (omega arith)
rounds-IsInside b env i (suc rounds) h j l k =
    let rest = gen_range_rounds b env (suc i) rounds in
    let (low, h') =
      asserted (ltb 0 (drawn env i)) (assert_true (ltb (drawn env i) 10) >> rest)
        (rw (← round_lem b env i rounds) h) in
    let (high, h'') = asserted (ltb (drawn env i) 10) rest h' in
    elim (Bool-cases (i == j)) [
      | inl e ↦ rw (← (==_iff i j).0 e) (ltb→lt 0 (drawn env i) low, ltb→lt (drawn env i) 10 high)
      | inr e ↦ rounds-IsInside b env (suc i) rounds h'' j (ground arith) (omega arith)
    ]

-- One of the two ends, both of which `gen_range` returns as well.
abbrev pub IsEnd : (ℕ → Environment) → ℕ → Type 0
IsEnd env i = (drawn env i ≡ 0) ⊎ (drawn env i ≡ 10)

IsEnd-or_IsInside : (env : ℕ → Environment) (i : ℕ) → IsEnd env i ⊎ IsInside env i
IsEnd-or_IsInside env i = let small : drawn env i < 11 = omega arith in ground arith

-- Rounds that do not return meet an end.
rounds-IsEnd :
    (b : Build) (env : ℕ → Environment) (i rounds : ℕ)
    → gen_range_rounds b env i rounds ≡ panic
    → (j : ℕ) × (j < i + rounds) × IsEnd env j
unfolding gen_range_rounds
rounds-IsEnd b env i zero h = absurd (ground arith)
rounds-IsEnd b env i (suc rounds) h = elim (IsEnd-or_IsInside env i) [
  | inl e ↦ (i, omega arith, e)
  | inr (low, high) ↦
      let rest = gen_range_rounds b env (suc i) rounds in
      let (j, k, e) = rounds-IsEnd b env (suc i) rounds (
        sym (
          round_lem b env i rounds
          ∙ assert-true (ltb 0 (drawn env i)) (assert_true (ltb (drawn env i) 10) >> rest)
              (lt→ltb _ _ low)
          ∙ assert-true (ltb (drawn env i) 10) rest (lt→ltb _ _ high))
        ∙ h) in
      (j, omega arith, e)
]

not_IsInside-of_IsEnd : (env : ℕ → Environment) (i : ℕ) → IsEnd env i → IsInside env i → ⊥
not_IsInside-of_IsEnd env i (inl e) (low, high) = absurd (omega arith)
not_IsInside-of_IsEnd env i (inr e) (low, high) = absurd (omega arith)

returns_or_panics : (o : Outcome (Unit {0})) → (o ≡ done tt) ⊎ (o ≡ panic)
returns_or_panics (done tt) = inl refl
returns_or_panics panic = inr refl

-- `gen_range_works` panics, in every build, exactly if one of its thousand numbers is one of the
-- two ends, 0 and 10.
pub gen_range_works_iff :
    (b : Build) (env : ℕ → Environment)
    → (gen_range_works b env ≡ panic) ↔ ((i : ℕ) × (i < 1000) × IsEnd env i)
unfolding gen_range_works
gen_range_works_iff b env = (
  λ h. rounds-IsEnd b env 0 1000 h,
  λ (i, k, e). elim (returns_or_panics (gen_range_rounds b env 0 1000)) [
    | inl h ↦ absurd (
        not_IsInside-of_IsEnd env i e
          (rounds-IsInside b env 0 1000 h i (omega arith) (omega arith)))
    | inr h ↦ h
  ],
)
