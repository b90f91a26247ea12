-- ===== src/Contracts/Moneybag/UnitTests/Passes.antt =====
-- When the unit tests of contracts/moneybag/src/lib.rs pass: those that ask for no random number,
-- and that of the winner.
use crain.Prelude.{
  ℕ, zero, suc, ◌<◌, ◌≡◌, refl, ap, ◌∙◌, ◌↔◌, Outcome, ◌==◌, [], ◌∷◌, some, get_elem?, done, panic,
  ◌>>=◌, arith,
}
use crain.Prelude.Machine.{Build, checked, wrapping, add, fit}
use crain.Ink.{AccountId, Mapping}
use crain.Contracts.Moneybag.{
  Environment, Contract, new, add_bid, accept, conclude, get_total_sum, total_loop, find_winner,
  get_my_bid, get_bids_made, get_max_bid, unwrap, bid_made, max_bids_reached,
}
use crain.Contracts.Moneybag.Prize.{get_elem?-ge}
use crain.Contracts.Moneybag.Last.{draw, find_winner_lem}
use crain.Ink.Testing.{alice, bob, charlie, django, eve, assert_true, panic-done}
use crain.Contracts.Moneybag.UnitTests.{
  new_works, get_my_bid_works, get_max_bid_works, get_bids_made_works, bids_of_callers,
  get_total_sum_works, add_bid_works, too_low_bid_fails, with_members, find_winner_works,
}

module _ (m : Mapping AccountId ℕ ◌==◌) (env : Environment) where
  -- The contract of `give_prize_works` when the prize is drawn.
  abbrev pub closed_bag : Contract m
  closed_bag = record {
    size = 5;
    bids_made = 5;
    members = alice ∷ bob ∷ charlie ∷ django ∷ eve ∷ [];
    bids =
        m.insert
          (m.insert (m.insert (m.insert (m.insert m.empty alice 100) bob 100) charlie 100) django
            100)
          eve 100;
    max_bid = 100;
    events =
        bid_made (some bob) 100
        ∷ bid_made (some charlie) 100
        ∷ bid_made (some django) 100
        ∷ max_bids_reached
        ∷ [];
    payments = [];
  }

  -- The tests that ask for no random number pass.
  settled_tests_pass :
      (b : Build)
      → (new_works m b env ≡ done tt)
        × (get_my_bid_works m b env ≡ done tt)
        × (get_max_bid_works m b env ≡ done tt)
        × (get_bids_made_works m b env ≡ done tt)
        × (get_total_sum_works m b env ≡ done tt)
        × (add_bid_works m b env ≡ done tt)
        × (too_low_bid_fails m b env ≡ done tt)
  unfolding new_works get_my_bid_works get_max_bid_works get_bids_made_works get_total_sum_works
      add_bid_works too_low_bid_fails bids_of_callers add_bid accept conclude new add fit get_my_bid
      get_bids_made get_max_bid get_total_sum total_loop
  settled_tests_pass checked =
      (refl, simp m.get-insert, refl, refl, simp m.get-insert, simp m.get-insert, refl)
  settled_tests_pass wrapping =
      (refl, simp m.get-insert, refl, refl, simp m.get-insert, simp m.get-insert, refl)

  -- The contract of `find_winner_works`.
  abbrev filled_bag : Build → Contract m
  filled_bag b = with_members m b env (bob ∷ charlie ∷ django ∷ eve ∷ []) 100 (new m alice 100)

  found_as :
      (b : Build) (o : Outcome AccountId)
      → find_winner m b env alice (filled_bag b) ≡ o
      → find_winner_works m b env ≡ (
          o >>= λ winner. unwrap (m.get closed_bag.bids winner) >>= λ bid. assert_true (bid == 100))
  unfolding find_winner_works with_members new
  found_as b o e =
      ap
        (λ p.
          p >>= λ winner. unwrap (m.get closed_bag.bids winner) >>= λ bid. assert_true (bid == 100))
        e

  found_at :
      (b : Build)
      → find_winner m b env alice (filled_bag b)
        ≡ unwrap (get_elem? closed_bag.members (draw m env alice))
  unfolding with_members new
  found_at b = find_winner_lem m b env alice (filled_bag b) refl

  -- With a winner the test looks at its bid.
  won_by :
      (b : Build) (d winner : ℕ)
      → get_elem? closed_bag.members (draw m env alice) ≡ some winner
      → (unwrap (m.get closed_bag.bids winner) >>= λ bid. assert_true (bid == 100)) ≡ done tt
      → d < 5
      → (find_winner_works m b env ≡ done tt) ↔ (d < 5)
  won_by b d winner e t l = (λ h. l, λ h. found_as b (done winner) (found_at b ∙ ap unwrap e) ∙ t)

  -- Each member's bid is 100, so the test passes with every winner.
  finds :
      (b : Build) (d : ℕ) → draw m env alice ≡ d → (find_winner_works m b env ≡ done tt) ↔ (d < 5)
  finds b zero e =
      won_by b 0 alice (ap (get_elem? closed_bag.members) e) (simp m.get-insert) (omega arith)
  finds b (suc zero) e =
      won_by b 1 bob (ap (get_elem? closed_bag.members) e) (simp m.get-insert) (omega arith)
  finds b (suc (suc zero)) e =
      won_by b 2 charlie (ap (get_elem? closed_bag.members) e) (simp m.get-insert) (omega arith)
  finds b (suc (suc (suc zero))) e =
      won_by b 3 django (ap (get_elem? closed_bag.members) e) (simp m.get-insert) (omega arith)
  finds b (suc (suc (suc (suc zero)))) e =
      won_by b 4 eve (ap (get_elem? closed_bag.members) e) (simp m.get-insert) (omega arith)
  finds b (suc (suc (suc (suc (suc d))))) e =
      let none_found = found_as b panic (
        found_at b
        ∙ ap unwrap (get_elem?-ge m closed_bag.members (draw m env alice) (omega (arith, e)))) in
      (λ h. absurd (panic-done cc), λ l. absurd (omega arith))

  -- `find_winner_works` passes, in every build, exactly if the number drawn is that of a member.
  find_winner_works_iff :
      (b : Build) → (find_winner_works m b env ≡ done tt) ↔ (draw m env alice < 5)
  find_winner_works_iff b = finds b (draw m env alice) refl
