-- ===== src/Contracts/Erc20/Ledger.antt =====
-- What the token of contracts/erc20/src/lib.rs promises: a ledger, which is plain functions on
-- accounts with exact numbers.
use crain.Prelude.{
  ℕ, ◌+◌, ◌-◌, ltb, ◌==◌, ◌&&◌, if◌then◌else◌, List, [], ◌∷◌, ◌++◌, none, some, ok, err,
}
use crain.Ink.{AccountId, Mapping, pair_eq}
use crain.Contracts.Erc20.{
  Event, transferred, approval, Contract, Reply, Message, transfer, approve, transfer_from,
  insufficient_balance, insufficient_allowance, balance_of, allowance,
}

pub record Ledger : Type 0 where
  pub supply : ℕ
  pub balance : AccountId → ℕ
  pub allowed : AccountId → AccountId → ℕ
  pub events : List Event

-- The whole supply belongs to the creator.
abbrev pub opened : AccountId → ℕ → Ledger
opened creator supply = record {
  supply = supply;
  balance = λ a. if creator == a then supply else 0;
  allowed = λ o p. 0;
  events = transferred none (some creator) supply ∷ [];
}

-- Tokens change hands; to oneself they do not.
abbrev pub sent : AccountId → AccountId → ℕ → Ledger → Ledger
sent from to value l = record l {
  balance = λ a.
      if from == to
      then l.balance a
      else (if from == a
          then l.balance a - value
          else (if to == a then l.balance a + value else l.balance a));
  events = l.events ++ (transferred (some from) (some to) value ∷ []);
}

abbrev pub with_allowance : AccountId → AccountId → ℕ → Ledger → Ledger
with_allowance owner spender value l = record l {
  allowed = λ o p. if owner == o && spender == p then value else l.allowed o p;
}

-- A message, as the ledger understands it: a failure leaves it as it is.
abbrev pub respond : AccountId → Message → Ledger → Reply × Ledger
respond caller (transfer to value) l =
    if ltb (l.balance caller) value
    then (err insufficient_balance, l)
    else (ok tt, sent caller to value l)
respond caller (approve spender value) l =
    let approved = with_allowance caller spender value l in
    (ok tt, record approved { events = l.events ++ (approval caller spender value ∷ []) })
respond caller (transfer_from from to value) l =
    if ltb (l.allowed from caller) value
    then (err insufficient_allowance, l)
    else (if ltb (l.balance from) value then (err insufficient_balance, l) else (
      ok tt,
      with_allowance from caller (l.allowed from caller - value) (sent from to value l),
    ))

abbrev pub respond_all : List (AccountId × Message) → Ledger → List Reply × Ledger
respond_all [] l = ([], l)
respond_all ((caller, message) ∷ later) l =
    let (reply, l') = respond caller message l in
    let (replies, l'') = respond_all later l' in (reply ∷ replies, l'')

module _ (bm : Mapping AccountId ℕ ◌==◌) (am : Mapping (AccountId × AccountId) ℕ pair_eq) where
  -- What can be seen of a contract.
  abbrev pub view : Contract bm am → Ledger
  view s = record {
    supply = s.total_supply;
    balance = balance_of bm am s;
    allowed = allowance bm am s;
    events = s.events;
  }

  abbrev pub observe : {R : Type 0} → R × Contract bm am → R × Ledger
  observe (r, s) = (r, view s)
