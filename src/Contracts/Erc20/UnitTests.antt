-- ===== src/Contracts/Erc20/UnitTests.antt =====
-- The unit tests of contracts/erc20/src/lib.rs. The caller is Alice until `set_caller`; the callee
-- that some tests set is the contract itself, and no message reads it.
pub mod Topics
pub mod Hashes
pub mod Passes
use crain.Prelude.{
  ℕ, ◌+◌, ◌==◌, Bool, true, false, List, length, map, Option, none, some, get_elem?, Outcome, done,
  panic, ◌>>=◌, ◌>>◌, err,
}
use crain.Prelude.Machine.{Build, add, u128_mod}
use crain.Ink.{AccountId, Mapping, pair_eq}
use crain.Ink.Testing.{alice, bob, eve, assert_true, unwrap_ok}
use crain.Contracts.Erc20.{
  Contract, Reply, Message, transfer, approve, transfer_from, insufficient_balance,
  insufficient_allowance, new, total_supply, balance_of, allowance, call,
}
use crain.Contracts.Erc20.UnitTests.Topics.{Engine, EmittedEvent, emitted, assert_transfer_event}

abbrev pub is_insufficient_balance : Reply → Bool
is_insufficient_balance (err insufficient_balance) = true
is_insufficient_balance _ = false

abbrev pub is_insufficient_allowance : Reply → Bool
is_insufficient_allowance (err insufficient_allowance) = true
is_insufficient_allowance _ = false

module _ (bm : Mapping AccountId ℕ ◌==◌) (am : Mapping (AccountId × AccountId) ℕ pair_eq)
    (b : Build) (e : Engine) where
  -- `recorded_events`
  abbrev pub recorded_events : Contract bm am → List (EmittedEvent e.Data)
  recorded_events s = map (emitted e) s.events

  -- `assert_transfer_event` of `emitted_events[n]`
  abbrev pub assert_transfer_at :
      ℕ → Option AccountId → Option AccountId → ℕ → Contract bm am → Outcome (Unit {0})
  assert_transfer_at n from to value s = elim (get_elem? (recorded_events s) n) [
    | none ↦ panic
    | some event ↦ assert_transfer_event e event from to value
  ]

  -- A message that must succeed.
  abbrev pub call_ok : AccountId → Message → Contract bm am → Outcome (Contract bm am)
  call_ok caller message s =
      call bm am b caller message s >>= λ (reply, s'). unwrap_ok reply >> done s'

  unfoldable pub new_works : Outcome (Unit {0})
  new_works = do
    let erc20 = new bm am alice 100
    assert_true (1 == length (recorded_events erc20))
    assert_transfer_at 0 none (some alice) 100 erc20

  unfoldable pub total_supply_works : Outcome (Unit {0})
  total_supply_works = do
    let erc20 = new bm am alice 100
    assert_transfer_at 0 none (some alice) 100 erc20
    assert_true (total_supply bm am erc20 == 100)

  unfoldable pub balance_of_works : Outcome (Unit {0})
  balance_of_works = do
    let erc20 = new bm am alice 100
    assert_transfer_at 0 none (some alice) 100 erc20
    assert_true (balance_of bm am erc20 alice == 100)
    assert_true (balance_of bm am erc20 bob == 0)

  unfoldable pub transfer_works : Outcome (Unit {0})
  transfer_works = do
    let erc20 = new bm am alice 100
    assert_true (balance_of bm am erc20 bob == 0)
    erc20' ← call_ok alice (transfer bob 10) erc20
    assert_true (balance_of bm am erc20' bob == 10)
    assert_true (length (recorded_events erc20') == 2)
    assert_transfer_at 0 none (some alice) 100 erc20'
    assert_transfer_at 1 (some alice) (some bob) 10 erc20'

  unfoldable pub invalid_transfer_should_fail : Outcome (Unit {0})
  invalid_transfer_should_fail = do
    let erc20 = new bm am alice 100
    assert_true (balance_of bm am erc20 bob == 0)
    answer ← call bm am b bob (transfer eve 10) erc20
    assert_true (is_insufficient_balance answer.0)
    let erc20' = answer.1
    assert_true (balance_of bm am erc20' alice == 100)
    assert_true (balance_of bm am erc20' bob == 0)
    assert_true (balance_of bm am erc20' eve == 0)
    assert_true (length (recorded_events erc20') == 1)
    assert_transfer_at 0 none (some alice) 100 erc20'

  unfoldable pub transfer_from_works : Outcome (Unit {0})
  transfer_from_works = do
    refused ← call bm am b alice (transfer_from alice eve 10) (new bm am alice 100)
    assert_true (is_insufficient_allowance refused.0)
    approved ← call_ok alice (approve bob 10) refused.1
    assert_true (length (recorded_events approved) == 2)
    moved ← call_ok bob (transfer_from alice eve 10) approved
    assert_true (balance_of bm am moved eve == 10)
    assert_true (length (recorded_events moved) == 3)
    assert_transfer_at 0 none (some alice) 100 moved
    assert_transfer_at 2 (some alice) (some eve) 10 moved

  unfoldable pub allowance_must_not_change_on_failed_transfer : Outcome (Unit {0})
  allowance_must_not_change_on_failed_transfer = do
    let erc20 = new bm am alice 100
    let alice_balance = balance_of bm am erc20 alice
    initial_allowance ← add u128_mod b alice_balance 2
    approved ← call_ok alice (approve bob initial_allowance) erc20
    let emitted_events_before = length (recorded_events approved)
    more ← add u128_mod b alice_balance 1
    refused ← call bm am b bob (transfer_from alice eve more) approved
    assert_true (is_insufficient_balance refused.0)
    assert_true (allowance bm am refused.1 alice bob == initial_allowance)
    assert_true (emitted_events_before == length (recorded_events refused.1))
