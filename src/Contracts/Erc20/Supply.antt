-- ===== src/Contracts/Erc20/Supply.antt =====
-- The calls of contracts/erc20/src/lib.rs conserve the supply, and a call that fails changes nothing.
use crain.Prelude.{
  ℕ, ◌-◌, ◌≤◌, ◌<◌, ◌≡◌, refl, ◌∙◌, ◌⊎◌, inl, inr, Bool-cases, ltb, ltb→lt, ltb_false→le, lt→ltb,
  le→ltb_false, ◌==◌, Outcome, List, [], ◌∷◌, done, ok, err, arith,
}
use crain.Prelude.Machine.{Build, sub-eq_of_le, u128_mod}
use crain.Ink.{AccountId, Mapping, pair_eq}
use crain.Ink.Balances.{IsBacked}
use crain.Contracts.Erc20.{
  emit, approval, Contract, Reply, Message, transfer, approve, transfer_from, insufficient_balance,
  insufficient_allowance, new, balance_of, allowance, set_balance, set_allowance, transfer_from_to,
  spend_allowance, call, run,
}
use crain.Contracts.Erc20.Transfer.{
  IsValid, moved, transfer_from_to_enough, transfer_from_to_short, moved-IsValid,
}

-- The amounts that a message carries are u128.
abbrev pub IsMessage : Message → Type 0
IsMessage (transfer to value) = value < u128_mod
IsMessage (approve spender value) = value < u128_mod
IsMessage (transfer_from from to value) = value < u128_mod

abbrev pub AreMessages : List (AccountId × Message) → Type 0
AreMessages [] = Unit
AreMessages ((caller, message) ∷ later) = IsMessage message × AreMessages later

module _ (bm : Mapping AccountId ℕ ◌==◌) (am : Mapping (AccountId × AccountId) ℕ pair_eq) where
  -- What a call on `s` came to: it returned, with a valid state and the supply as it was, and
  -- either it succeeded or it left the state alone.
  pub record Settles (s : Contract bm am) (o : Outcome (Reply × Contract bm am)) : Type 0 where
    pub reply : Reply
    pub state : Contract bm am
    pub returns : o ≡ done (reply, state)
    pub valid : IsValid bm am state
    pub supply_kept : state.total_supply ≡ s.total_supply
    pub atomic : (reply ≡ ok tt) ⊎ (state ≡ s)

  pub set_allowance-IsValid :
      (s : Contract bm am) (owner spender value : ℕ)
      → IsValid bm am s
      → value < u128_mod
      → IsValid bm am (set_allowance bm am s owner spender value)
  unfolding set_allowance balance_of allowance
  set_allowance-IsValid s owner spender value v h = record {
    backed = v.backed;
    capped = v.capped;
    allowed = λ o p.
        rw (am.get-insert s.allowances (owner, spender) (o, p) value)
          (ground (arith, v.allowed o p));
  }

  module _ (b : Build) {s : Contract bm am} (v : IsValid bm am s) where
    transfer-Settles : (from to value : ℕ) → Settles s (transfer_from_to bm am b from to value s)
    unfolding set_balance
    transfer-Settles from to value = elim (Bool-cases (ltb (balance_of bm am s from) value)) [
      | inl e ↦ record {
        reply = err insufficient_balance;
        state = s;
        returns = transfer_from_to_short bm am b from to value v (ltb→lt _ _ e);
        valid = v;
        supply_kept = refl;
        atomic = inr refl;
      }
      | inr e ↦ record {
        reply = ok tt;
        state = moved bm am from to value s;
        returns = transfer_from_to_enough bm am b from to value v (ltb_false→le _ _ e);
        valid = moved-IsValid bm am b from to value v (ltb_false→le _ _ e);
        supply_kept = refl;
        atomic = inl refl;
      }
    ]

    -- `transfer_from`, with an allowance that is too small, with a balance that is, and with both
    -- large enough.
    module _ (caller from to value : ℕ) where
      pub transfer_from_disallowed :
          allowance bm am s from caller < value
          → call bm am b caller (transfer_from from to value) s
            ≡ done (err insufficient_allowance, s)
      unfolding call
      transfer_from_disallowed h = rw (lt→ltb _ _ h)

      pub transfer_from_short :
          value ≤ allowance bm am s from caller
          → balance_of bm am s from < value
          → call bm am b caller (transfer_from from to value) s ≡ done (err insufficient_balance, s)
      unfolding call spend_allowance
      transfer_from_short h k =
          rw (le→ltb_false _ _ h, transfer_from_to_short bm am b from to value v k)

      pub transfer_from_enough :
          value ≤ allowance bm am s from caller
          → value ≤ balance_of bm am s from
          → call bm am b caller (transfer_from from to value) s
            ≡ done (
              ok tt,
              set_allowance bm am
                  (moved bm am from to value s)
                  from
                  caller
                  (allowance bm am s from caller - value),
            )
      unfolding call spend_allowance
      transfer_from_enough h k = rw (
        le→ltb_false _ _ h,
        transfer_from_to_enough bm am b from to value v k,
        sub-eq_of_le u128_mod b (allowance bm am s from caller) value h (v.allowed from caller),
      )

      transfer_from-Settles : Settles s (call bm am b caller (transfer_from from to value) s)
      unfolding set_balance set_allowance
      transfer_from-Settles = elim (Bool-cases (ltb (allowance bm am s from caller) value)) [
        | inl e ↦ record {
          reply = err insufficient_allowance;
          state = s;
          returns = transfer_from_disallowed (ltb→lt _ _ e);
          valid = v;
          supply_kept = refl;
          atomic = inr refl;
        }
        | inr e ↦ elim (Bool-cases (ltb (balance_of bm am s from) value)) [
          | inl f ↦ record {
            reply = err insufficient_balance;
            state = s;
            returns = transfer_from_short (ltb_false→le _ _ e) (ltb→lt _ _ f);
            valid = v;
            supply_kept = refl;
            atomic = inr refl;
          }
          | inr f ↦ record {
            reply = ok tt;
            state =
                set_allowance bm am (moved bm am from to value s) from caller
                  (allowance bm am s from caller - value);
            returns = transfer_from_enough (ltb_false→le _ _ e) (ltb_false→le _ _ f);
            valid =
                set_allowance-IsValid (moved bm am from to value s) from caller
                  (allowance bm am s from caller - value)
                  (moved-IsValid bm am b from to value v (ltb_false→le _ _ f))
                  (omega (arith, v.allowed from caller));
            supply_kept = refl;
            atomic = inl refl;
          }
        ]
      ]

  -- Every message on a valid state returns, in every build: it never traps. It keeps the state
  -- valid, so the balances still add up to the same supply, and it either succeeds or leaves
  -- storage and events exactly as they were.
  pub call-Settles :
      (b : Build) (caller : AccountId) (message : Message) {s : Contract bm am}
      → IsValid bm am s
      → IsMessage message
      → Settles s (call bm am b caller message s)
  unfolding call set_allowance allowance balance_of
  call-Settles b caller (transfer to value) v h = transfer-Settles b v caller to value
  call-Settles b caller (transfer_from from to value) v h =
      transfer_from-Settles b v caller from to value
  call-Settles b caller (approve spender value) {s} v h = record {
    reply = ok tt;
    state = emit (approval caller spender value) (set_allowance bm am s caller spender value);
    returns = refl;
    valid =
        let w = set_allowance-IsValid s caller spender value v h in
        record { backed = w.backed; capped = w.capped; allowed = w.allowed };
    supply_kept = refl;
    atomic = inl refl;
  }

  -- A new contract is valid: its creator holds the whole supply.
  pub new-IsValid :
      (caller initial_supply : ℕ)
      → initial_supply < u128_mod
      → IsValid bm am (new bm am caller initial_supply)
  unfolding new balance_of allowance
  new-IsValid caller initial_supply h = record {
    backed = record {
      accounts = caller ∷ [];
      distinct = (refl, tt);
      covers =
          λ a e. rw (bm.get-insert bm.empty caller a initial_supply, bm.get-empty a) (ground arith);
      adds_up = rw (bm.get-insert bm.empty caller caller initial_supply) (ground arith);
    };
    capped = h;
    allowed = λ o p. rw (am.get-empty (o, p)) (omega arith);
  }

  pub run_keeps :
      (b : Build) (calls : List (AccountId × Message)) {s : Contract bm am}
      → IsValid bm am s
      → AreMessages calls
      → (replies : List Reply) × (s' : Contract bm am) × (run bm am b calls s ≡ done (replies, s'))
        × IsValid bm am s'
        × (s'.total_supply ≡ s.total_supply)
  unfolding run
  run_keeps b [] {s} v h = ([], s, refl, v, refl)
  run_keeps b ((caller, message) ∷ later) {s} v h =
      let first = call-Settles b caller message v h.0 in
      let (replies, s', e, v', kept) = run_keeps b later {s = first.state} first.valid h.1 in
      (first.reply ∷ replies, s', rw (first.returns, e), v', kept ∙ first.supply_kept)

  -- From a new contract, any sequence of calls by any accounts returns, in every build, and ends
  -- in a state whose balances add up to the initial supply.
  pub run_conserves :
      (b : Build) (creator initial_supply : ℕ) (calls : List (AccountId × Message))
      → initial_supply < u128_mod
      → AreMessages calls
      → (replies : List Reply) × (s' : Contract bm am) × (run bm am b calls
            (new bm am creator initial_supply)
          ≡ done (replies, s'))
        × (s'.total_supply ≡ initial_supply)
        × IsBacked (balance_of bm am s') initial_supply
  unfolding new
  run_conserves b creator initial_supply calls h k =
      let (replies, s', e, v, kept) =
        run_keeps b calls {s = new bm am creator initial_supply}
          (new-IsValid creator initial_supply h) k in
      (replies, s', e, kept, rw (← kept) v.backed)
