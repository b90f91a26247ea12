-- ===== src/Contracts/Moneybag/Tests.antt =====
-- Games of five members as runs, and instances of the theorems. Mappings are by their reads.
use crain.Prelude.{
  ℕ, ◌+◌, ◌/◌, ◌≤◌, ◌<◌, ◌≡◌, refl, ◌⊎◌, ◌↔◌, true, false, ◌==◌, List, [], ◌∷◌, ◌++◌, length, done,
  panic, ok, err, arith, All,
}
use crain.Prelude.Machine.{checked, wrapping, add, sub, rem, fit, u128_mod}
use crain.Ink.{AccountId, Mapping, by_reads}
use crain.Ink.Balances.{contains}
use crain.Contracts.Moneybag.{
  Environment, Contract, Reply, bid_too_low, duplicate_member, new, add_bid, accept, conclude,
  give_prize, find_winner, gen_range, get_total_sum, total_loop,
}
use crain.Contracts.Moneybag.Rules.{IsValid, new-IsValid}
use crain.Contracts.Moneybag.Bids.{Takes, add_bid_before_last}
use crain.Contracts.Moneybag.Last.{draw}
use crain.Contracts.Moneybag.Ends.{Pays, Traps, add_bid_last_ends}
use crain.Contracts.Moneybag.Rounds.{Call, run, run_keeps, run-IsValid}
use crain.Contracts.Moneybag.UnitTests.{gen_range_works, give_prize_works}
use crain.Contracts.Moneybag.UnitTests.GenRange.{IsEnd, gen_range_works_iff}
use crain.Contracts.Moneybag.UnitTests.GivePrize.{give_prize_works_iff}

abbrev bm : Mapping AccountId ℕ ◌==◌
bm = by_reads AccountId ℕ ◌==◌

-- Environments in which every transfer succeeds, and the generator makes one number.
abbrev second_wins : Environment
second_wins = record {
  Seed = ℕ;
  random = λ a. a;
  next_u64 = λ s. 7;
  next_u64_lt = λ s. omega arith;
  transfer = λ a v. true;
}

abbrev nobody_wins : Environment
nobody_wins = record {
  Seed = ℕ;
  random = λ a. a;
  next_u64 = λ s. 11;
  next_u64_lt = λ s. omega arith;
  transfer = λ a v. true;
}

abbrev bid : ℕ → ℕ → Call
bid a v = record { env = second_wins; caller = a; amount = v }

-- Three bids are accepted, one is too low and one is a member's second.
abbrev opening : List Call
opening = bid 2 300 ∷ bid 3 100 ∷ bid 3 150 ∷ bid 2 400 ∷ bid 4 200 ∷ []

opening-All : All (λ (c : Call). c.amount < u128_mod) opening
opening-All = (omega arith, (omega arith, (omega arith, (omega arith, (omega arith, tt)))))

-- The second member, with the account 2, receives 1050 in the end; a sixth bid is too late.
game_is_paid :
    (run bm checked (opening ++ (bid 5 300 ∷ bid 6 900 ∷ [])) (new bm 1 100)).payments
    ≡ (2, 1050) ∷ []
unfolding run new add_bid accept conclude give_prize find_winner gen_range get_total_sum total_loop
    add sub rem fit
game_is_paid = refl

four_members : (run bm checked opening (new bm 1 100)).members ≡ 1 ∷ 2 ∷ 3 ∷ 4 ∷ []
unfolding run new add_bid accept conclude add fit
four_members = refl

abbrev four : Contract bm
four = run bm checked opening (new bm 1 100)

four-IsValid : IsValid bm four
four-IsValid = run_keeps bm checked opening (new-IsValid bm 1 100 (omega arith)) opening-All

four_is_last : four.bids_made + 1 ≡ four.size
unfolding run new add_bid accept conclude add fit
four_is_last = refl

four_half : four.max_bid / 2 ≤ 300
unfolding run new add_bid accept conclude add fit
four_half = omega arith

four_fresh : contains four.members 5 ≡ false
unfolding run new add_bid accept conclude add fit
four_fresh = refl

add_bid_last_ends_example :
    Pays bm wrapping second_wins 5 300 four ⊎ Traps bm wrapping second_wins 5 300 four
add_bid_last_ends_example =
    add_bid_last_ends bm wrapping second_wins 5 300 four four-IsValid four_is_last four_half
      (omega arith) four_fresh

add_bid_before_last_example :
    (reply : Reply) × (s' : Contract bm) × (add_bid bm checked second_wins 2 50 (new bm 1 100)
      ≡ done (reply, s'))
    × IsValid bm s'
    × ((reply ≡ ok tt)
          × ((new bm 1 100).max_bid / 2 ≤ 50)
          × (contains (new bm 1 100).members 2 ≡ false)
          × Takes bm 2 50 (new bm 1 100) s'
          × (s'.payments ≡ (new bm 1 100).payments)
        ⊎ (reply ≡ err bid_too_low) × (50 < (new bm 1 100).max_bid / 2) × (s' ≡ new bm 1 100)
        ⊎ (reply ≡ err duplicate_member)
          × ((new bm 1 100).max_bid / 2 ≤ 50)
          × (contains (new bm 1 100).members 2 ≡ true)
          × (s' ≡ new bm 1 100))
unfolding new
add_bid_before_last_example =
    add_bid_before_last bm checked second_wins 2 50 (new-IsValid bm 1 100 (omega arith))
      (omega arith) (omega arith)

run-IsValid_example :
    let s = run bm checked opening (new bm 1 100) in
    IsValid bm s × (length s.members ≤ 5) × (length s.payments ≤ 1)
run-IsValid_example = run-IsValid bm checked 1 100 opening (omega arith) opening-All

gen_range_works_iff_example :
    (gen_range_works checked (λ i. second_wins) ≡ panic)
    ↔ ((i : ℕ) × (i < 1000) × IsEnd (λ i. second_wins) i)
gen_range_works_iff_example = gen_range_works_iff checked (λ i. second_wins)

give_prize_works_iff_example : (give_prize_works bm checked second_wins (λ a. 0) ≡ done tt) ↔ (
    (0 < draw bm second_wins 5)
    × (draw bm second_wins 5 < 5)
    × (second_wins.transfer (draw bm second_wins 5 + 1) 500 ≡ true))
give_prize_works_iff_example = give_prize_works_iff bm second_wins checked (λ a. 0)
