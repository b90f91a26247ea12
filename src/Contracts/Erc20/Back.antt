-- ===== src/Contracts/Erc20/Back.antt =====
-- A transfer of contracts/erc20/src/lib.rs and the one back.
use crain.Prelude.{
  ℕ, ◌≤◌, ◌<◌, ◌≡◌, refl, ap, ◌∙◌, ltb, ◌==◌, List, [], ◌∷◌, done, map_done, done-injective, ok,
  arith, false,
}
use crain.Prelude.Machine.{Build, u128_mod}
use crain.Ink.{AccountId, Mapping, pair_eq}
use crain.Ink.Balances.{IsBacked-le}
use crain.Contracts.Erc20.{Contract, Reply, Message, transfer, balance_of, allowance, run}
use crain.Contracts.Erc20.Transfer.{IsValid}
use crain.Contracts.Erc20.Supply.{run_keeps}
use crain.Contracts.Erc20.Ledger.{Ledger, sent, respond_all, view, observe}
use crain.Contracts.Erc20.Refine.{run_refines}

abbrev pub there_and_back : AccountId → AccountId → ℕ → List (AccountId × Message)
there_and_back from to value = (from, transfer to value) ∷ (to, transfer from value) ∷ []

module _ (from to value : ℕ) (l : Ledger) (enough : value ≤ l.balance from) where
  abbrev returned : Ledger
  returned = sent to from value (sent from to value l)

  balance_back : (a : AccountId) → returned.balance a ≡ l.balance a
  balance_back a = ground arith

  ledger_back : respond_all (there_and_back from to value) l ≡ (ok tt ∷ ok tt ∷ [], returned)
  ledger_back =
      let first : ltb (l.balance from) value ≡ false = ground arith in
      let second : ltb ((sent from to value l).balance to) value ≡ false = ground arith in
      rw (first, second) refl

module _ (bm : Mapping AccountId ℕ ◌==◌) (am : Mapping (AccountId × AccountId) ℕ pair_eq)
    (b : Build) (from to value : ℕ) {s : Contract bm am} (v : IsValid bm am s) where
  -- A transfer that the sender can afford and the same one back, on a valid state, both succeed in
  -- every build, also if both are the same account, and restore what was to be seen of the supply,
  -- of every balance and of every allowance.
  pub transfer_back :
      value ≤ balance_of bm am s from
      → (s' : Contract bm am) × (run bm am b (there_and_back from to value) s
          ≡ done (ok tt ∷ ok tt ∷ [], s'))
        × (s'.total_supply ≡ s.total_supply)
        × ((a : AccountId) → balance_of bm am s' a ≡ balance_of bm am s a)
        × ((o p : AccountId) → allowance bm am s' o p ≡ allowance bm am s o p)
  transfer_back enough =
      let small : value < u128_mod = omega (arith, enough, IsBacked-le from v.backed, v.capped) in
      let (replies, s', e, v', kept) =
        run_keeps bm am b (there_and_back from to value) {s = s} v (small, (small, tt)) in
      let same : (replies, view bm am s')
          ≡ (ok tt ∷ ok tt ∷ [], returned from to value (view bm am s) enough) =
        done-injective (ap (map_done (observe bm am)) e)
          (run_refines bm am b (there_and_back from to value) {s = s} v (small, (small, tt)))
        ∙ ledger_back from to value (view bm am s) enough in
      (
        s',
        e ∙ ap (λ (q : List Reply × Ledger). done (q.0, s')) same,
        kept,
        λ a.
            ap (λ (q : List Reply × Ledger). q.1.balance a) same
            ∙ balance_back from to value (view bm am s) enough a,
        λ o p. ap (λ (q : List Reply × Ledger). q.1.allowed o p) same,
      )
