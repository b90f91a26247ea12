-- ===== src/Contracts/Erc20.antt =====
-- contracts/erc20/src/lib.rs: the ERC-20 token. A message takes the caller and the state of the
-- contract with the events emitted so far, and returns its result with the new state; a panic
-- traps, which undoes the call. `b` says whether the contract is built with overflow checks.
pub mod Transfer
pub mod Supply
pub mod Allowance
pub mod Ledger
pub mod Refine
pub mod Token
pub mod Back
pub mod UnitTests
mod Tests
use crain.Prelude.{
  ℕ, ltb, if◌then◌else◌, List, [], ◌∷◌, ◌++◌, Option, none, some, Outcome, done, panic, ◌>>=◌,
  Result, ok, err, ◌==◌,
}
use crain.Prelude.Machine.{Build, add, sub, u128_mod}
use crain.Ink.{AccountId, Mapping, pair_eq, or_zero}

pub data Event : Type 0 where
  transferred : Option AccountId → Option AccountId → ℕ → Event
  approval : AccountId → AccountId → ℕ → Event

pub data Error : Type 0 where
  insufficient_balance insufficient_allowance : Error

-- The storage, over the types of its two mappings, and the events of the environment.
pub record Erc20 (Balances Allowances : Type 0) : Type 0 where
  pub total_supply : ℕ
  pub balances : Balances
  pub allowances : Allowances
  pub events : List Event

-- The messages that change the state.
pub data Message : Type 0 where
  transfer : AccountId → ℕ → Message
  approve : AccountId → ℕ → Message
  transfer_from : AccountId → AccountId → ℕ → Message

abbrev pub Reply : Type 0
Reply = Result (Unit {0}) Error

abbrev pub emit : {B A : Type 0} → Event → Erc20 B A → Erc20 B A
emit e s = record s { events = s.events ++ (e ∷ []) }

module _ (bm : Mapping AccountId ℕ ◌==◌) (am : Mapping (AccountId × AccountId) ℕ pair_eq) where
  abbrev pub Contract : Type 0
  Contract = Erc20 bm.Map am.Map

  -- `new`, with the caller's initial supply.
  unfoldable pub new : AccountId → ℕ → Contract
  new caller initial_supply = emit (transferred none (some caller) initial_supply) (record {
    total_supply = initial_supply;
    balances = bm.insert bm.empty caller initial_supply;
    allowances = am.empty;
    events = [];
  })

  unfoldable pub total_supply : Contract → ℕ
  total_supply s = s.total_supply

  -- `balance_of` and `balance_of_impl`
  unfoldable pub balance_of : Contract → AccountId → ℕ
  balance_of s owner = or_zero (bm.get s.balances owner)

  -- `allowance` and `allowance_impl`
  unfoldable pub allowance : Contract → AccountId → AccountId → ℕ
  allowance s owner spender = or_zero (am.get s.allowances (owner, spender))

  unfoldable pub set_balance : Contract → AccountId → ℕ → Contract
  set_balance s owner value = record s { balances = bm.insert s.balances owner value }

  unfoldable pub set_allowance : Contract → AccountId → AccountId → ℕ → Contract
  set_allowance s owner spender value = record s {
    allowances = am.insert s.allowances (owner, spender) value;
  }

  unfoldable pub transfer_from_to :
      Build → AccountId → AccountId → ℕ → Contract → Outcome (Reply × Contract)
  transfer_from_to b from to value s =
      let from_balance = balance_of s from in
      if ltb from_balance value then done (err insufficient_balance, s) else (do
        less ← sub u128_mod b from_balance value
        let debited = set_balance s from less
        more ← add u128_mod b (balance_of debited to) value
        done (ok tt, emit (transferred (some from) (some to) value) (set_balance debited to more)))

  -- `transfer_from`, once the tokens have moved: the allowance that was read is lowered.
  unfoldable pub spend_allowance :
      Build → AccountId → AccountId → ℕ → ℕ → Reply × Contract → Outcome (Reply × Contract)
  spend_allowance b from caller allowance value (err e, s) = done (err e, s)
  spend_allowance b from caller allowance value (ok _, s) = do
    rest ← sub u128_mod b allowance value
    done (ok tt, set_allowance s from caller rest)

  -- A message of `caller`.
  unfoldable pub call : Build → AccountId → Message → Contract → Outcome (Reply × Contract)
  call b caller (transfer to value) s = transfer_from_to b caller to value s
  call b caller (approve spender value) s =
      done (ok tt, emit (approval caller spender value) (set_allowance s caller spender value))
  call b caller (transfer_from from to value) s =
      let allowance = allowance s from caller in
      if ltb allowance value
      then done (err insufficient_allowance, s)
      else (transfer_from_to b from to value s >>= λ moved.
          spend_allowance b from caller allowance value moved)

  -- Calls in order, with what each returned; a trap ends the run.
  unfoldable pub run :
      Build → List (AccountId × Message) → Contract → Outcome (List Reply × Contract)
  run b [] s = done ([], s)
  run b ((caller, message) ∷ later) s = call b caller message s >>= λ (reply, s').
      run b later s' >>= λ (replies, s''). done (reply ∷ replies, s'')
