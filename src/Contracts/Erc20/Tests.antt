-- ===== src/Contracts/Erc20/Tests.antt =====
-- The contract's own tests as runs, and instances of the theorems. Mappings are by their reads.
use crain.Prelude.{
  ℕ, ◌+◌, ◌-◌, ◌≤◌, ◌≡◌, refl, ◌&&◌, ◌==◌, if◌then◌else◌, some, List, [], ◌∷◌, ◌++◌, done, map_done,
  ok, err, arith,
}
use crain.Prelude.Machine.{checked, wrapping, add, sub, fit}
use crain.Ink.{AccountId, Mapping, pair_eq, by_reads}
use crain.Ink.Balances.{IsBacked}
use crain.Contracts.Erc20.{
  Contract, Reply, Message, transfer, approve, transfer_from, transferred, insufficient_balance,
  insufficient_allowance, new, balance_of, allowance, set_balance, set_allowance, transfer_from_to,
  spend_allowance, call, run,
}
use crain.Contracts.Erc20.Transfer.{IsValid}
use crain.Contracts.Erc20.Supply.{
  Settles, call-Settles, new-IsValid, set_allowance-IsValid, run_conserves,
}
use crain.Contracts.Erc20.Allowance.{drawn, run_draws, transfer_from_spends}
use mathlib.Core.Quot
use crain.Contracts.Erc20.Token.{look, send, run-send}
use crain.Contracts.Erc20.Ledger.{opened, view, respond_all, observe}
use crain.Contracts.Erc20.Refine.{erc20_refines}
use crain.Contracts.Erc20.Back.{there_and_back, transfer_back}

abbrev bm : Mapping AccountId ℕ ◌==◌
bm = by_reads AccountId ℕ ◌==◌

abbrev am : Mapping (AccountId × AccountId) ℕ pair_eq
am = by_reads (AccountId × AccountId) ℕ pair_eq

-- Alice is 1, Bob 2 and Eve 5.
abbrev start : Contract bm am
unfolding new
start = new bm am 1 100

start-IsValid : IsValid bm am (new bm am 1 100)
start-IsValid = new-IsValid bm am 1 100 (omega arith)

abbrev session : List (AccountId × Message)
session =
    (2, transfer_from 1 5 10)
    ∷ (1, approve 2 15)
    ∷ (2, transfer_from 1 5 10)
    ∷ (2, transfer_from 1 5 10)
    ∷ (2, transfer 5 1)
    ∷ []

session_replies :
    map_done
      (λ (r : List Reply × Contract bm am). r.0)
      (run bm am checked session (new bm am 1 100))
    ≡ done (
        err insufficient_allowance
        ∷ ok tt
        ∷ ok tt
        ∷ err insufficient_allowance
        ∷ err insufficient_balance
        ∷ [])
unfolding run call new transfer_from_to spend_allowance balance_of allowance set_balance
    set_allowance add sub fit
session_replies = refl

session_balances :
    map_done
      (λ (r : List Reply × Contract bm am).
        balance_of bm am r.1 1 ∷ balance_of bm am r.1 5 ∷ allowance bm am r.1 1 2 ∷ [])
      (run bm am checked session (new bm am 1 100))
    ≡ done (90 ∷ 10 ∷ 5 ∷ [])
unfolding run call new transfer_from_to spend_allowance balance_of allowance set_balance
    set_allowance add sub fit
session_balances = refl

call-Settles_example :
    Settles bm am (new bm am 1 100) (call bm am checked 2 (transfer 1 7) (new bm am 1 100))
call-Settles_example = call-Settles bm am checked 2 (transfer 1 7) start-IsValid (omega arith)

run_conserves_example :
    (replies : List Reply) × (s' : Contract bm am) × (run bm am checked session (new bm am 1 100)
      ≡ done (replies, s'))
    × (s'.total_supply ≡ 100)
    × IsBacked (balance_of bm am s') 100
run_conserves_example = run_conserves bm am checked 1 100 session (omega arith) (omega arith)

-- Bob spends an allowance of 15 in two steps, and a third one is refused.
abbrev allowed : Contract bm am
allowed = set_allowance bm am (new bm am 1 100) 1 2 15

allowed-IsValid : IsValid bm am allowed
allowed-IsValid = set_allowance-IsValid bm am (new bm am 1 100) 1 2 15 start-IsValid (omega arith)

abbrev withdrawals : List (AccountId × Message)
withdrawals = (2, transfer_from 1 5 10) ∷ (2, transfer_from 1 2 4) ∷ (2, transfer_from 1 5 9) ∷ []

run_draws_example :
    (replies : List Reply) × (s' : Contract bm am) × (run bm am checked withdrawals allowed
      ≡ done (replies, s'))
    × (drawn 1 2 withdrawals replies + allowance bm am s' 1 2 ≡ allowance bm am allowed 1 2)
run_draws_example =
    run_draws bm am checked 1 2 withdrawals allowed-IsValid (omega arith) (refl, (refl, (refl, tt)))

transfer_from_spends_example :
    (s' : Contract bm am) × (call bm am checked 2 (transfer_from 1 5 10) allowed ≡ done (ok tt, s'))
    × (s'.events ≡ allowed.events ++ (transferred (some 1) (some 5) 10 ∷ []))
    × (s'.total_supply ≡ allowed.total_supply)
    × ((o p : AccountId)
        → allowance bm am s' o p ≡ (
            if 1 == o && 2 == p
            then allowance bm am allowed o p - 10
            else allowance bm am allowed o p))
    × ((a : AccountId)
        → balance_of bm am s' a ≡ (
            if 1 == 5
            then balance_of bm am allowed a
            else (if 1 == a
                then balance_of bm am allowed a - 10
                else (if 5 == a
                    then balance_of bm am allowed a + 10
                    else balance_of bm am allowed a))))
unfolding set_allowance allowance balance_of new
transfer_from_spends_example =
    transfer_from_spends bm am checked 2 1 5 10 allowed-IsValid (omega arith) (omega arith)

erc20_refines_example :
    map_done (observe bm am) (run bm am checked session (new bm am 1 100))
    ≡ done (respond_all session (opened 1 100))
erc20_refines_example = erc20_refines bm am checked 1 100 session (omega arith) (omega arith)

run-send_example :
    (replies : List Reply) × (s' : Contract bm am) × (v' : IsValid bm am s') × (run bm am checked
        session
        (new bm am 1 100)
      ≡ done (replies, s'))
    × (send bm am checked session (omega arith) (Quot.mk (new bm am 1 100, start-IsValid))
        ≡ (replies, Quot.mk (s', v')))
    × ((replies, view bm am s')
        ≡ respond_all session (look bm am (Quot.mk (new bm am 1 100, start-IsValid))))
run-send_example = run-send bm am checked session (omega arith) start-IsValid

start_rich : 30 ≤ balance_of bm am (new bm am 1 100) 1
unfolding new balance_of
start_rich = omega arith

transfer_back_example :
    (s' : Contract bm am) × (run bm am wrapping (there_and_back 1 2 30) (new bm am 1 100)
      ≡ done (ok tt ∷ ok tt ∷ [], s'))
    × (s'.total_supply ≡ (new bm am 1 100).total_supply)
    × ((a : AccountId) → balance_of bm am s' a ≡ balance_of bm am (new bm am 1 100) a)
    × ((o p : AccountId) → allowance bm am s' o p ≡ allowance bm am (new bm am 1 100) o p)
transfer_back_example = transfer_back bm am wrapping 1 2 30 start-IsValid start_rich
