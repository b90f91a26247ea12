-- ===== src/Contracts/Moneybag.antt =====
-- contracts/moneybag/src/lib.rs: five members bid, and one of them wins all bids. The random seed,
-- the ChaCha generator and the transfer of native tokens are the environment's, so parameters. A
-- message takes the caller and the state, and returns its result with the new state; a panic traps.
pub mod Rules
pub mod Bids
pub mod Prize
pub mod Last
pub mod Ends
pub mod UnitTests
pub mod Rounds
mod Tests
use crain.Prelude.{
  ℕ, ◌≡◌, ◌<◌, ◌/◌, Bool, true, false, ltb, leb, ◌==◌, if◌then◌else◌, List, [], ◌∷◌, ◌++◌,
  get_elem?, Option, none, some, Outcome, done, panic, ◌>>=◌, Result, ok, err,
}
use crain.Prelude.Machine.{Build, add, sub, rem, u32_mod, u64_mod, u128_mod}
use crain.Ink.{AccountId, Mapping}
use crain.Ink.Balances.{contains}

-- What the contract asks of its environment during one call.
pub record Environment : Type 1 where
  pub Seed : Type 0
  -- `env().random(subject)`, as the 32 bytes of a seed
  pub random : AccountId → Seed
  -- `ChaCha20Rng::from_seed(seed).next_u64()`
  pub next_u64 : Seed → ℕ
  pub next_u64_lt : (s : Seed) → next_u64 s < u64_mod
  -- whether `env().transfer(account, value)` succeeds
  pub transfer : AccountId → ℕ → Bool

pub data Event : Type 0 where
  bid_made : Option AccountId → ℕ → Event
  max_bids_reached prize_transfered : Event

pub data Error : Type 0 where
  max_bids duplicate_member bid_too_low : Error

-- The storage, the events emitted and the transfers made.
pub record Moneybag (Bids : Type 0) : Type 0 where
  pub size : ℕ
  pub bids_made : ℕ
  pub members : List AccountId
  pub bids : Bids
  pub max_bid : ℕ
  pub events : List Event
  pub payments : List (AccountId × ℕ)

abbrev pub Reply : Type 0
Reply = Result (Unit {0}) Error

abbrev pub emit : {B : Type 0} → Event → Moneybag B → Moneybag B
emit e s = record s { events = s.events ++ (e ∷ []) }

-- `Option::unwrap`
abbrev pub unwrap {ℓ} : {A : Type ℓ} → Option A → Outcome A
unwrap none = panic
unwrap (some a) = done a

-- `gen_range`, given the number that the generator made.
unfoldable pub gen_range : Build → ℕ → ℕ → ℕ → Outcome ℕ
gen_range b min max next = do
  span ← sub u64_mod b max min
  count ← add u64_mod b span 1
  offset ← rem next count
  add u64_mod b offset min

module _ (m : Mapping AccountId ℕ ◌==◌) where
  abbrev pub Contract : Type 0
  Contract = Moneybag m.Map

  unfoldable pub new : AccountId → ℕ → Contract
  new caller first_bid = record {
    size = 5;
    bids_made = 1;
    members = caller ∷ [];
    bids = m.insert m.empty caller first_bid;
    max_bid = first_bid;
    events = [];
    payments = [];
  }

  -- The loop of `get_total_sum`.
  unfoldable pub total_loop : Build → m.Map → List AccountId → ℕ → Outcome ℕ
  total_loop b bids [] total = done total
  total_loop b bids (member ∷ members) total = do
    bid ← unwrap (m.get bids member)
    total' ← add u128_mod b total bid
    total_loop b bids members total'

  unfoldable pub get_total_sum : Build → Contract → Outcome ℕ
  get_total_sum b s = total_loop b s.bids s.members 0

  unfoldable pub find_winner : Build → Environment → AccountId → Contract → Outcome AccountId
  find_winner b env caller s = do
    winner_pos ← gen_range b 0 s.size (env.next_u64 (env.random caller))
    unwrap (get_elem? s.members winner_pos)

  unfoldable pub give_prize : Build → Environment → AccountId → Contract → Outcome Contract
  give_prize b env caller s = do
    total ← get_total_sum b s
    winner ← find_winner b env caller s
    if env.transfer winner total
        then done
            (emit prize_transfered (record s { payments = s.payments ++ ((winner, total) ∷ []) }))
        else panic

  -- The bid is written down: the middle of `add_bid`.
  unfoldable pub accept : Build → AccountId → ℕ → Contract → Outcome Contract
  accept b caller amount s = do
    count ← add u32_mod b s.bids_made 1
    done (record s {
      bids = m.insert s.bids caller amount;
      members = s.members ++ (caller ∷ []);
      bids_made = count;
      max_bid = if ltb s.max_bid amount then amount else s.max_bid;
    })

  -- The rest of `add_bid`: the prize, if this was the last bid, and the event.
  unfoldable pub conclude :
      Build → Environment → AccountId → ℕ → Contract → Outcome (Reply × Contract)
  conclude b env caller amount s = do
    s' ← if s.bids_made == s.size then give_prize b env caller (emit max_bids_reached s) else done s
    done (ok tt, emit (bid_made (some caller) amount) s')

  unfoldable pub add_bid :
      Build → Environment → AccountId → ℕ → Contract → Outcome (Reply × Contract)
  add_bid b env caller amount s =
      if leb s.size s.bids_made
      then done (err max_bids, emit max_bids_reached s)
      else (if ltb amount (s.max_bid / 2)
          then done (err bid_too_low, s)
          else (if contains s.members caller
              then done (err duplicate_member, s)
              else (accept b caller amount s >>= λ s'. conclude b env caller amount s')))

  unfoldable pub get_my_bid : AccountId → Contract → Option ℕ
  get_my_bid caller s = m.get s.bids caller

  unfoldable pub get_bids_made : Contract → ℕ
  get_bids_made s = s.bids_made

  unfoldable pub get_max_bid : Contract → ℕ
  get_max_bid s = s.max_bid
