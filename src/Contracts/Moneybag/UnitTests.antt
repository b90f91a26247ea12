-- ===== src/Contracts/Moneybag/UnitTests.antt =====
-- The unit tests of contracts/moneybag/src/lib.rs. A test passes if it returns: an assertion that
-- fails panics, as `unwrap` of an error does. `env` is the environment of its calls; the accounts
-- are those of `default_accounts`, and the caller is Alice until `set_caller`.
pub mod Passes
pub mod GenRange
pub mod GivePrize
use crain.Prelude.{
  ℕ, zero, suc, ◌+◌, Bool, true, false, ltb, ◌==◌, ◌&&◌, if◌then◌else◌, List, [], ◌∷◌, ◌++◌, Option,
  none, some, Outcome, done, panic, ◌>>=◌, ◌>>◌, Result, ok, err,
}
use crain.Prelude.Machine.{Build}
use crain.Ink.{AccountId, Mapping}
use crain.Ink.Balances.{contains}
use crain.Ink.Testing.{alice, bob, charlie, django, eve, assert_true, unwrap_ok}
use crain.Contracts.Moneybag.{
  Environment, Moneybag, Contract, Reply, Error, bid_too_low, unwrap, gen_range, new, add_bid,
  get_total_sum, find_winner, get_my_bid, get_bids_made, get_max_bid,
}

abbrev pub is_bid_too_low : Reply → Bool
is_bid_too_low (err bid_too_low) = true
is_bid_too_low _ = false

-- The rounds of `gen_range_works`, with the environment of each.
unfoldable pub gen_range_rounds : Build → (ℕ → Environment) → ℕ → ℕ → Outcome (Unit {0})
gen_range_rounds b env i zero = done tt
gen_range_rounds b env i (suc rounds) = do
  number ← gen_range b 0 10 ((env i).next_u64 ((env i).random 0))
  assert_true (ltb 0 number)
  assert_true (ltb number 10)
  gen_range_rounds b env (suc i) rounds

unfoldable pub gen_range_works : Build → (ℕ → Environment) → Outcome (Unit {0})
gen_range_works b env = gen_range_rounds b env 0 1000

-- How many accounts have more in the first list than in the second; `zip` ends with the shorter.
abbrev pub gained : List ℕ → List ℕ → ℕ
gained (a ∷ as') (b ∷ bs) = (if ltb b a then 1 else 0) + gained as' bs
gained _ _ = 0

-- `get_account_balance`, after the payments of a test: what an account had before, and they.
abbrev pub paid_to : AccountId → List (AccountId × ℕ) → ℕ
paid_to a [] = 0
paid_to a ((to, value) ∷ later) = (if to == a then value else 0) + paid_to a later

module _ (m : Mapping AccountId ℕ ◌==◌) (b : Build) (env : Environment) where
  unfoldable pub new_works : Outcome (Unit {0})
  new_works = assert_true (get_bids_made m (new m alice 100) == 1)

  -- `set_caller` and `add_bid(bid).unwrap()`
  abbrev pub bid_of_caller : AccountId → ℕ → Contract m → Outcome (Contract m)
  bid_of_caller caller bid bag =
      add_bid m b env caller bid bag >>= λ (reply, bag'). unwrap_ok reply >> done bag'

  unfoldable pub get_my_bid_works : Outcome (Unit {0})
  get_my_bid_works = do
    bag ← bid_of_caller bob 100 (new m alice 100)
    mine ← unwrap (get_my_bid m bob bag)
    assert_true (mine == 100)

  unfoldable pub get_max_bid_works : Outcome (Unit {0})
  get_max_bid_works = do
    bag ← bid_of_caller bob 1000 (new m alice 100)
    assert_true (get_max_bid m bag == 1000)

  unfoldable pub get_bids_made_works : Outcome (Unit {0})
  get_bids_made_works = do
    bag ← bid_of_caller bob 100 (new m alice 100)
    assert_true (get_bids_made m bag == 2)

  -- The loop over callers that all bid the same.
  unfoldable pub bids_of_callers : List AccountId → ℕ → Contract m → Outcome (Contract m)
  bids_of_callers [] bid bag = done bag
  bids_of_callers (caller ∷ callers) bid bag = do
    bag' ← bid_of_caller caller bid bag
    bids_of_callers callers bid bag'

  unfoldable pub get_total_sum_works : Outcome (Unit {0})
  get_total_sum_works = do
    bag ← bids_of_callers (bob ∷ charlie ∷ django ∷ []) 100 (new m alice 100)
    total ← get_total_sum m b bag
    assert_true (total == 400)

  unfoldable pub add_bid_works : Outcome (Unit {0})
  add_bid_works = do
    bag ← bid_of_caller bob 100 (new m alice 100)
    assert_true (get_bids_made m bag == 2)
    assert_true (contains bag.members bob)
    bid ← unwrap (m.get bag.bids bob)
    assert_true (bid == 100)

  unfoldable pub too_low_bid_fails : Outcome (Unit {0})
  too_low_bid_fails = do
    bag ← bid_of_caller bob 300 (new m alice 100)
    answer ← add_bid m b env eve 100 bag
    assert_true (is_bid_too_low answer.0)

  -- The loop of `find_winner_works`, which writes to the storage itself.
  unfoldable pub with_members : List AccountId → ℕ → Contract m → Contract m
  with_members [] bid bag = bag
  with_members (user ∷ users) bid bag =
      with_members users bid
        (record bag { bids = m.insert bag.bids user bid; members = bag.members ++ (user ∷ []) })

  unfoldable pub find_winner_works : Outcome (Unit {0})
  find_winner_works = do
    let bag = with_members (bob ∷ charlie ∷ django ∷ eve ∷ []) 100 (new m alice 100)
    winner ← find_winner m b env alice bag
    bid ← unwrap (m.get bag.bids winner)
    assert_true (bid == 100)

  unfoldable pub give_prize_works : (AccountId → ℕ) → Outcome (Unit {0})
  give_prize_works balance = do
    bag ← bids_of_callers (bob ∷ charlie ∷ django ∷ eve ∷ []) 100 (new m alice 100)
    let balance_after = λ (a : AccountId). balance a + paid_to a bag.payments
    let final_balances =
        balance_after bob ∷ balance_after charlie ∷ balance_after django ∷ balance_after eve ∷ []
    let initial_balances =
        balance bob ∷ balance charlie ∷ balance django ∷ balance eve ∷ balance 6 ∷ []
    assert_true (gained final_balances initial_balances == 1)
