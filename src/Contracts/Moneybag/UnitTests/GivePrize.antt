-- ===== src/Contracts/Moneybag/UnitTests/GivePrize.antt =====
-- When the unit test of `give_prize` of contracts/moneybag/src/lib.rs passes.
use crain.Prelude.{
  ℕ, zero, suc, ◌+◌, ◌≤◌, ◌<◌, ◌≡◌, refl, ap, ◌∙◌, ◌↔◌, inl, inr, true, false, Outcome, Bool-cases,
  ◌==◌, if◌then◌else◌, List, [], ◌∷◌, some, get_elem?, done, panic, ◌>>=◌, arith,
}
use native.Mathlib.Nat.{mod-lt}
use crain.Prelude.Machine.{Build, checked, wrapping, add, fit}
use crain.Ink.{AccountId, Mapping}
use crain.Contracts.Moneybag.{
  Environment, Contract, new, add_bid, accept, conclude, get_total_sum, total_loop, give_prize,
  unwrap, emit, prize_transfered,
}
use crain.Contracts.Moneybag.Prize.{get_elem?-ge}
use crain.Contracts.Moneybag.Last.{draw, find_winner_lem, pay, prize_from, no_prize_from}
use crain.Contracts.Moneybag.UnitTests.{gained, paid_to, bids_of_callers, give_prize_works}
use crain.Ink.Testing.{
  alice, bob, charlie, django, eve, assert_true, panic-done, if_returns, if_same,
}
use crain.Contracts.Moneybag.UnitTests.Passes.{closed_bag}

module _ (m : Mapping AccountId ℕ ◌==◌) (env : Environment) where
  abbrev closed_bag_here : Contract m
  closed_bag_here = closed_bag m env

  total_here : (b : Build) → get_total_sum m b closed_bag_here ≡ done 500
  unfolding get_total_sum total_loop add fit
  total_here checked = simp m.get-insert
  total_here wrapping = simp m.get-insert

  -- The balances that the test compares, after a payment.
  abbrev rise : (AccountId → ℕ) → List (AccountId × ℕ) → ℕ
  rise balance payments =
      gained
        ((balance bob + paid_to bob payments)
          ∷ (balance charlie + paid_to charlie payments)
          ∷ (balance django + paid_to django payments)
          ∷ (balance eve + paid_to eve payments)
          ∷ [])
        (balance bob ∷ balance charlie ∷ balance django ∷ balance eve ∷ balance 6 ∷ [])

  works_as :
      (b : Build) (balance : AccountId → ℕ) (o : Outcome (Contract m))
      → give_prize m b env eve closed_bag_here ≡ o
      → give_prize_works m b env balance
        ≡ (o >>= λ bag. assert_true (rise balance bag.payments == 1))
  unfolding give_prize_works bids_of_callers add_bid accept conclude new add fit
  works_as checked balance (done bag) e = rw e refl
  works_as checked balance panic e = rw e refl
  works_as wrapping balance (done bag) e = rw e refl
  works_as wrapping balance panic e = rw e refl

  -- With a winner, the transfer decides first, and then what the test counts.
  paid_as :
      (b : Build) (balance : AccountId → ℕ) (winner : AccountId)
      → get_elem? closed_bag_here.members (draw m env eve) ≡ some winner
      → give_prize_works m b env balance ≡ (
          if env.transfer winner 500
          then assert_true (rise balance ((winner, 500) ∷ []) == 1)
          else panic)
  paid_as b balance winner e =
      let prize : give_prize m b env eve closed_bag_here ≡ pay m env winner 500 closed_bag_here =
        prize_from m b env eve winner 500 closed_bag_here (total_here b)
          (find_winner_lem m b env eve closed_bag_here refl ∙ ap unwrap e) in
      elim (Bool-cases (env.transfer winner 500)) [
        | inl t ↦
            works_as b balance
              (done
                (emit prize_transfered (record closed_bag_here { payments = (winner, 500) ∷ [] })))
              (prize ∙ rw t refl)
            ∙ rw t refl
        | inr t ↦ works_as b balance panic (prize ∙ rw t refl) ∙ rw t refl
      ]

  -- A winner whose balance the test looks at.
  seen_winner :
      (b : Build) (balance : AccountId → ℕ) (d winner : ℕ)
      → get_elem? closed_bag_here.members (draw m env eve) ≡ some winner
      → (rise balance ((winner, 500) ∷ []) == 1) ≡ true
      → (0 < d) × (d < 5)
      → (give_prize_works m b env balance ≡ done tt)
        ↔ ((0 < d) × (d < 5) × (env.transfer winner 500 ≡ true))
  seen_winner b balance d winner e c k =
      rw (paid_as b balance winner e, c)
        (λ h. (k.0, k.1, if_returns (env.transfer winner 500) h), λ (l, h, t). rw t refl)

  -- A test that fails, whatever is said of its numbers.
  failed :
      (b : Build) (balance : AccountId → ℕ) (P : Type 0)
      → give_prize_works m b env balance ≡ panic
      → (P → ⊥)
      → (give_prize_works m b env balance ≡ done tt) ↔ P
  failed b balance P e n = (λ h. absurd (panic-done cc), λ p. absurd (n p))

  -- Alice is a member, and none of those whose balance the test looks at.
  alice_wins :
      (b : Build) (balance : AccountId → ℕ)
      → draw m env eve ≡ 0
      → give_prize_works m b env balance ≡ panic
  alice_wins b balance e =
      let nobody : (rise balance ((alice, 500) ∷ []) == 1) ≡ false = ground arith in
      rw (paid_as b balance alice (ap (get_elem? closed_bag_here.members) e), nobody)
        (if_same (env.transfer alice 500))

  nobody_wins :
      (b : Build) (balance : AccountId → ℕ)
      → 5 ≤ draw m env eve
      → give_prize_works m b env balance ≡ panic
  nobody_wins b balance l = works_as b balance panic (
      no_prize_from m b env eve closed_bag_here (
        find_winner_lem m b env eve closed_bag_here refl
        ∙ ap unwrap (get_elem?-ge m closed_bag_here.members (draw m env eve) l)))

  passes_at :
      (b : Build) (balance : AccountId → ℕ) (d : ℕ)
      → draw m env eve ≡ d
      → d < 6
      → (give_prize_works m b env balance ≡ done tt)
        ↔ ((0 < d) × (d < 5) × (env.transfer (d + 1) 500 ≡ true))
  passes_at b balance zero e l =
      failed b balance _ (alice_wins b balance e) (λ h. absurd (omega (arith, h.0)))
  passes_at b balance (suc zero) e l =
      seen_winner b balance 1 bob (ap (get_elem? closed_bag_here.members) e) (ground arith)
        (omega arith)
  passes_at b balance (suc (suc zero)) e l =
      seen_winner b balance 2 charlie (ap (get_elem? closed_bag_here.members) e) (ground arith)
        (omega arith)
  passes_at b balance (suc (suc (suc zero))) e l =
      seen_winner b balance 3 django (ap (get_elem? closed_bag_here.members) e) (ground arith)
        (omega arith)
  passes_at b balance (suc (suc (suc (suc zero)))) e l =
      seen_winner b balance 4 eve (ap (get_elem? closed_bag_here.members) e) (ground arith)
        (omega arith)
  passes_at b balance (suc (suc (suc (suc (suc d))))) e l =
      failed b balance _ (nobody_wins b balance (omega (arith, e)))
        (λ h. absurd (omega (arith, h.1)))

  -- `give_prize_works` passes, in every build, exactly if the generator's number for the fifth
  -- bidder is 1, 2, 3 or 4 modulo 6 and the transfer of the prize to that place is made: at 0 the
  -- first bidder wins, whose balance the test does not look at, and at 5 nobody.
  pub give_prize_works_iff :
      (b : Build) (balance : AccountId → ℕ)
      → (give_prize_works m b env balance ≡ done tt) ↔ (
          (0 < draw m env eve)
          × (draw m env eve < 5)
          × (env.transfer (draw m env eve + 1) 500 ≡ true))
  give_prize_works_iff b balance =
      passes_at b balance (draw m env eve) refl
        (mod-lt (env.next_u64 (env.random eve)) (omega arith))
