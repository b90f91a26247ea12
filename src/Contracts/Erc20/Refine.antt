-- ===== src/Contracts/Erc20/Refine.antt =====
-- The contract of contracts/erc20/src/lib.rs is used like the ledger.
use mathlib.Core.Path.{fun_ext}
use crain.Prelude.{
  ℕ, ◌-◌, ◌≤◌, ◌<◌, ◌≡◌, refl, ap, ap₂, ◌∙◌, inl, inr, Bool-cases, ltb, ltb→lt, ltb_false→le, ◌==◌,
  if◌then◌else◌, List, [], ◌∷◌, ◌++◌, none, some, done, map_done, done-injective, ok, arith,
}
use crain.Prelude.Machine.{Build, u128_mod}
use crain.Ink.{AccountId, Mapping, pair_eq, or_zero}
use crain.Contracts.Erc20.{
  transferred, approval, Contract, Reply, Message, transfer, approve, transfer_from, new,
  balance_of, allowance, set_balance, set_allowance, transfer_from_to, call, run,
}
use crain.Contracts.Erc20.Transfer.{
  IsValid, moved, balance_of-transfer, transfer_from_to_enough, transfer_from_to_short,
}
use crain.Contracts.Erc20.Supply.{
  transfer_from_disallowed, transfer_from_short, transfer_from_enough, AreMessages, call-Settles,
  new-IsValid, run_keeps,
}
use crain.Contracts.Erc20.Allowance.{allowance-set_allowance}
use crain.Contracts.Erc20.Ledger.{
  Ledger, opened, sent, with_allowance, respond, respond_all, view, observe,
}

module _ (bm : Mapping AccountId ℕ ◌==◌) (am : Mapping (AccountId × AccountId) ℕ pair_eq) where
  view-moved :
      (from to value : ℕ) (s : Contract bm am)
      → value ≤ balance_of bm am s from
      → view bm am (moved bm am from to value s) ≡ sent from to value (view bm am s)
  unfolding allowance set_balance
  view-moved from to value s h =
      ap
        (λ (f : AccountId → ℕ).
          let l : Ledger = record {
            supply = s.total_supply;
            balance = f;
            allowed = allowance bm am s;
            events = s.events ++ (transferred (some from) (some to) value ∷ []);
          } in
          l)
        (fun_ext λ a. balance_of-transfer bm am from to value s a h)

  view-set_allowance :
      (owner spender value : ℕ) (s : Contract bm am)
      → view bm am (set_allowance bm am s owner spender value)
        ≡ with_allowance owner spender value (view bm am s)
  unfolding balance_of set_allowance
  view-set_allowance owner spender value s =
      ap
        (λ (f : AccountId → AccountId → ℕ).
          let l : Ledger = record {
            supply = s.total_supply;
            balance = balance_of bm am s;
            allowed = f;
            events = s.events;
          } in
          l)
        (fun_ext λ o. fun_ext λ p. allowance-set_allowance bm am s owner spender value o p)

  module _ (b : Build) {s : Contract bm am} (v : IsValid bm am s) where
    transfer_refines :
        (from to value : ℕ)
        → map_done (observe bm am) (transfer_from_to bm am b from to value s)
          ≡ done (respond from (transfer to value) (view bm am s))
    transfer_refines from to value = elim (Bool-cases (ltb (balance_of bm am s from) value)) [
      | inl e ↦ rw (transfer_from_to_short bm am b from to value v (ltb→lt _ _ e), e)
      | inr e ↦
          rw (transfer_from_to_enough bm am b from to value v (ltb_false→le _ _ e), e)
            (ap (λ (l : Ledger). done (ok tt, l)) (view-moved from to value s (ltb_false→le _ _ e)))
    ]

    transfer_from_refines :
        (caller from to value : ℕ)
        → map_done (observe bm am) (call bm am b caller (transfer_from from to value) s)
          ≡ done (respond caller (transfer_from from to value) (view bm am s))
    transfer_from_refines caller from to value =
        elim (Bool-cases (ltb (allowance bm am s from caller) value)) [
          | inl e ↦ rw (transfer_from_disallowed bm am b v caller from to value (ltb→lt _ _ e), e)
          | inr e ↦ elim (Bool-cases (ltb (balance_of bm am s from) value)) [
            | inl f ↦ rw (
              transfer_from_short bm am b v caller from to value (ltb_false→le _ _ e)
                  (ltb→lt _ _ f),
              e,
              f,
            )
            | inr f ↦
                rw
                  (
                    transfer_from_enough bm am b v caller from to value (ltb_false→le _ _ e)
                        (ltb_false→le _ _ f),
                    e,
                    f,
                  )
                  (ap (λ (l : Ledger). done (ok tt, l))
                    (view-set_allowance from caller (allowance bm am s from caller - value)
                        (moved bm am from to value s)
                      ∙ ap (with_allowance from caller (allowance bm am s from caller - value))
                          (view-moved from to value s (ltb_false→le _ _ f))))
          ]
        ]

  -- One message, on a valid state.
  call_refines :
      (b : Build) (caller : AccountId) (message : Message) {s : Contract bm am}
      → IsValid bm am s
      → map_done (observe bm am) (call bm am b caller message s)
        ≡ done (respond caller message (view bm am s))
  unfolding call set_allowance balance_of allowance
  call_refines b caller (transfer to value) v = transfer_refines b v caller to value
  call_refines b caller (transfer_from from to value) v =
      transfer_from_refines b v caller from to value
  call_refines b caller (approve spender value) {s} v =
      ap
        (λ (l : Ledger).
          let answer : Reply × Ledger =
            (ok tt, record l { events = s.events ++ (approval caller spender value ∷ []) }) in
          done answer)
        (view-set_allowance caller spender value s)

  pub run_refines :
      (b : Build) (calls : List (AccountId × Message)) {s : Contract bm am}
      → IsValid bm am s
      → AreMessages calls
      → map_done (observe bm am) (run bm am b calls s) ≡ done (respond_all calls (view bm am s))
  unfolding run
  run_refines b [] v h = refl
  run_refines b ((caller, message) ∷ later) {s} v h =
      let first = call-Settles bm am b caller message v h.0 in
      let answer : (first.reply, view bm am first.state) ≡ respond caller message (view bm am s) =
        done-injective (ap (map_done (observe bm am)) first.returns)
          (call_refines b caller message v) in
      let (replies, s', e, v', kept) = run_keeps bm am b later {s = first.state} first.valid h.1 in
      let rest : (replies, view bm am s') ≡ respond_all later (view bm am first.state) =
        done-injective (ap (map_done (observe bm am)) e)
          (run_refines b later {s = first.state} first.valid h.1) in
      rw (first.returns, e)
        (ap (λ (q : List Reply × Ledger). done (first.reply ∷ q.0, q.1)) rest
          ∙ ap
              (λ (a : Reply × Ledger).
                done (a.0 ∷ (respond_all later a.1).0, (respond_all later a.1).1))
              answer)

  or_zero-insert :
      (creator a supply : ℕ)
      → or_zero (bm.get (bm.insert bm.empty creator supply) a)
        ≡ (if creator == a then supply else 0)
  or_zero-insert creator a supply =
      rw (bm.get-insert bm.empty creator a supply, bm.get-empty a) (ground arith)

  pub view-new :
      (creator supply : ℕ) → view bm am (new bm am creator supply) ≡ opened creator supply
  unfolding new balance_of allowance
  view-new creator supply =
      ap₂
        (λ (f : AccountId → ℕ) (g : AccountId → AccountId → ℕ).
          let l : Ledger = record {
            supply = supply;
            balance = f;
            allowed = g;
            events = transferred none (some creator) supply ∷ [];
          } in
          l)
        (fun_ext λ a. or_zero-insert creator a supply)
        (fun_ext λ o. fun_ext λ p. ap (λ m. or_zero m) (am.get-empty (o, p)))

  -- A new contract is used like the ledger: any sequence of calls with u128 amounts returns, in
  -- every build and whatever the mappings are, just the replies of the ledger, and what is then to
  -- be seen of supply, balances, allowances and events is the ledger at the end.
  pub erc20_refines :
      (b : Build) (creator supply : ℕ) (calls : List (AccountId × Message))
      → supply < u128_mod
      → AreMessages calls
      → map_done (observe bm am) (run bm am b calls (new bm am creator supply))
        ≡ done (respond_all calls (opened creator supply))
  erc20_refines b creator supply calls h k =
      run_refines b calls {s = new bm am creator supply} (new-IsValid bm am creator supply h) k
      ∙ ap (λ l. done (respond_all calls l)) (view-new creator supply)
