-- ===== src/Contracts/Erc20/Allowance.antt =====
-- The allowances of contracts/erc20/src/lib.rs: what `transfer_from` takes from them.
use crain.Prelude.{
  ℕ, ◌+◌, ◌-◌, ◌≤◌, ◌≡◌, refl, ◌∙◌, inl, inr, Bool, Bool-cases, ltb, ltb→lt, ltb_false→le,
  done-injective, Outcome, ap, false, ◌&&◌, ◌==◌, if◌then◌else◌, some, List, [], ◌∷◌, ◌++◌, done,
  ok, err, arith,
}
use crain.Prelude.Machine.{Build}
use crain.Ink.{AccountId, Mapping, pair_eq}
use crain.Contracts.Erc20.{
  Contract, Reply, Message, transfer, approve, transfer_from, transferred, insufficient_balance,
  insufficient_allowance, balance_of, allowance, set_balance, set_allowance, call, run,
}
use crain.Contracts.Erc20.Transfer.{
  IsValid, moved, balance_of-transfer, transfer_from_to_enough, transfer_from_to_short,
}
use crain.Contracts.Erc20.Supply.{
  transfer_from_disallowed, transfer_from_short, transfer_from_enough, call-Settles, AreMessages,
}

-- What a call takes from the allowance of `owner` to `spender`, given its reply.
abbrev pub drawn_by : AccountId → AccountId → AccountId × Message → Reply → ℕ
drawn_by owner spender (caller, transfer to value) reply = 0
drawn_by owner spender (caller, approve _ value) reply = 0
drawn_by owner spender (caller, transfer_from from to value) (err e) = 0
drawn_by owner spender (caller, transfer_from from to value) (ok _) =
    if from == owner && caller == spender then value else 0

abbrev pub drawn : AccountId → AccountId → List (AccountId × Message) → List Reply → ℕ
drawn owner spender [] replies = 0
drawn owner spender (c ∷ calls) [] = 0
drawn owner spender (c ∷ calls) (r ∷ replies) =
    drawn_by owner spender c r + drawn owner spender calls replies

-- The call sets the allowance of `owner` to `spender`.
abbrev pub approves : AccountId → AccountId → AccountId × Message → Bool
approves owner spender (caller, transfer to value) = false
approves owner spender (caller, approve to value) = caller == owner && to == spender
approves owner spender (caller, transfer_from from to value) = false

abbrev pub NeverApproves : AccountId → AccountId → List (AccountId × Message) → Type 0
NeverApproves owner spender [] = Unit
NeverApproves owner spender (c ∷ calls) =
    (approves owner spender c ≡ false) × NeverApproves owner spender calls

module _ (bm : Mapping AccountId ℕ ◌==◌) (am : Mapping (AccountId × AccountId) ℕ pair_eq) where
  pub allowance-set_allowance :
      (s : Contract bm am) (o p v o' p' : ℕ)
      → allowance bm am (set_allowance bm am s o p v) o' p'
        ≡ (if o == o' && p == p' then v else allowance bm am s o' p')
  unfolding allowance set_allowance
  allowance-set_allowance s o p v o' p' =
      rw (am.get-insert s.allowances (o, p) (o', p') v) (ground arith)

  allowance-moved :
      (s : Contract bm am) (from to value o p : ℕ)
      → allowance bm am (moved bm am from to value s) o p ≡ allowance bm am s o p
  unfolding allowance set_balance
  allowance-moved s from to value o p = refl

  module _ (b : Build) (owner spender : AccountId) where
    -- What a call drew and what it left of the allowance.
    abbrev Accounts :
        Contract bm am → AccountId × Message → Outcome (Reply × Contract bm am) → Type 0
    Accounts s c o =
        (q : Reply × Contract bm am) × (o ≡ done q)
        × (drawn_by owner spender c q.0 + allowance bm am q.1 owner spender
            ≡ allowance bm am s owner spender)

    transfer-Accounts :
        (caller to value : ℕ) {s : Contract bm am}
        → IsValid bm am s
        → Accounts s (caller, transfer to value) (call bm am b caller (transfer to value) s)
    unfolding call
    transfer-Accounts caller to value {s} v =
        elim (Bool-cases (ltb (balance_of bm am s caller) value)) [
          | inl e ↦ (
            (err insufficient_balance, s),
            transfer_from_to_short bm am b caller to value v (ltb→lt _ _ e),
            omega arith,
          )
          | inr e ↦ (
            (ok tt, moved bm am caller to value s),
            transfer_from_to_enough bm am b caller to value v (ltb_false→le _ _ e),
            omega (arith, allowance-moved s caller to value owner spender),
          )
        ]

    approve-Accounts :
        (caller to value : ℕ) (s : Contract bm am)
        → approves owner spender (caller, approve to value) ≡ false
        → Accounts s (caller, approve to value) (call bm am b caller (approve to value) s)
    unfolding call allowance
    approve-Accounts caller to value s n =
        (_, refl, ground (arith, allowance-set_allowance s caller to value owner spender))

    transfer_from-Accounts :
        (caller from to value : ℕ) {s : Contract bm am}
        → IsValid bm am s
        → Accounts s
            (caller, transfer_from from to value)
            (call bm am b caller (transfer_from from to value) s)
    transfer_from-Accounts caller from to value {s} v =
        elim (Bool-cases (ltb (allowance bm am s from caller) value)) [
          | inl e ↦ (
            (err insufficient_allowance, s),
            transfer_from_disallowed bm am b v caller from to value (ltb→lt _ _ e),
            omega arith,
          )
          | inr e ↦ elim (Bool-cases (ltb (balance_of bm am s from) value)) [
            | inl f ↦ (
              (err insufficient_balance, s),
              transfer_from_short bm am b v caller from to value (ltb_false→le _ _ e)
                  (ltb→lt _ _ f),
              omega arith,
            )
            | inr f ↦ (
              (
                ok tt,
                set_allowance bm am (moved bm am from to value s) from caller
                    (allowance bm am s from caller - value),
              ),
              transfer_from_enough bm am b v caller from to value (ltb_false→le _ _ e)
                  (ltb_false→le _ _ f),
              spent (ltb_false→le _ _ e),
            )
          ]
        ]
      where
        spent :
            value ≤ allowance bm am s from caller
            → drawn_by owner spender (caller, transfer_from from to value) (ok tt)
                + allowance bm am
                    (set_allowance bm am
                      (moved bm am from to value s)
                      from
                      caller
                      (allowance bm am s from caller - value))
                    owner
                    spender
              ≡ allowance bm am s owner spender
        spent h = ground (
          arith,
          allowance-set_allowance (moved bm am from to value s) from caller
              (allowance bm am s from caller - value) owner spender,
          allowance-moved s from to value owner spender,
        )

    -- One call that is no new approval: what it draws and what is left make up what there was.
    call_draws :
        (c : AccountId × Message) {s : Contract bm am}
        → IsValid bm am s
        → approves owner spender c ≡ false
        → Accounts s c (call bm am b c.0 c.1 s)
    call_draws (caller, transfer to value) v n = transfer-Accounts caller to value v
    call_draws (caller, approve to value) {s} v n = approve-Accounts caller to value s n
    call_draws (caller, transfer_from from to value) v n =
        transfer_from-Accounts caller from to value v

    -- On a valid state, a run of calls in which `owner` never approves `spender` anew returns, and
    -- what `spender` has drawn from `owner` in it, with the allowance that is left, is exactly the
    -- allowance before; so it never draws more than it was allowed.
    pub run_draws :
        (calls : List (AccountId × Message)) {s : Contract bm am}
        → IsValid bm am s
        → AreMessages calls
        → NeverApproves owner spender calls
        → (replies : List Reply) × (s' : Contract bm am) × (run bm am b calls s
            ≡ done (replies, s'))
          × (drawn owner spender calls replies + allowance bm am s' owner spender
              ≡ allowance bm am s owner spender)
    unfolding run
    run_draws [] {s} v h n = ([], s, refl, omega arith)
    run_draws ((caller, message) ∷ later) {s} v h n =
        let first = call-Settles bm am b caller message v h.0 in
        let (q, e, eq) = call_draws (caller, message) v n.0 in
        let (replies, s', e', eq') = run_draws later {s = first.state} first.valid h.1 n.1 in
        let spent : Reply × Contract bm am → ℕ =
          λ r. drawn_by owner spender (caller, message) r.0 + allowance bm am r.1 owner spender in
        let now = ap spent (done-injective first.returns e) ∙ eq in
        (first.reply ∷ replies, s', rw (first.returns, e'), omega (arith, now, eq'))

  -- `transfer_from` of no more than the allowance and no more than the balance, on a valid state,
  -- succeeds in every build: it moves exactly `value` between the two accounts, lowers exactly the
  -- caller's allowance by it, and leaves every other balance and allowance and the supply alone.
  pub transfer_from_spends :
      (b : Build) (caller from to value : AccountId) {s : Contract bm am}
      → IsValid bm am s
      → value ≤ allowance bm am s from caller
      → value ≤ balance_of bm am s from
      → (s' : Contract bm am) × (call bm am b caller (transfer_from from to value) s
          ≡ done (ok tt, s'))
        × (s'.events ≡ s.events ++ (transferred (some from) (some to) value ∷ []))
        × (s'.total_supply ≡ s.total_supply)
        × ((o p : AccountId)
            → allowance bm am s' o p ≡ (
                if from == o && caller == p
                then allowance bm am s o p - value
                else allowance bm am s o p))
        × ((a : AccountId)
            → balance_of bm am s' a ≡ (
                if from == to
                then balance_of bm am s a
                else (if from == a
                    then balance_of bm am s a - value
                    else (if to == a then balance_of bm am s a + value else balance_of bm am s a))))
  unfolding set_balance set_allowance balance_of
  transfer_from_spends b caller from to value {s} v h k = (
    set_allowance bm am (moved bm am from to value s) from caller
        (allowance bm am s from caller - value),
    transfer_from_enough bm am b v caller from to value h k,
    refl,
    refl,
    λ o p. ground (
      arith,
      allowance-set_allowance (moved bm am from to value s) from caller
          (allowance bm am s from caller - value) o p,
      allowance-moved s from to value o p,
    ),
    λ a. balance_of-transfer bm am from to value s a k,
  )
