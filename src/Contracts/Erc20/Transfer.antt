-- ===== src/Contracts/Erc20/Transfer.antt =====
-- `transfer_from_to` of contracts/erc20/src/lib.rs in full: what it returns and what it changes.
use mathlib.Core.Path.{fun_ext}
use crain.Prelude.{
  ◌++◌, [], ◌∷◌, if◌then◌else◌, ℕ, ◌+◌, ◌-◌, ◌≤◌, ◌<◌, ◌≡◌, refl, ap, ◌∙◌, lt→ltb, le→ltb_false,
  ◌==◌, some, done, ok, err, arith,
}
use crain.Prelude.Machine.{Build, add-eq_of_lt, sub-eq_of_le, u128_mod}
use crain.Ink.{AccountId, Mapping, pair_eq}
use crain.Ink.Balances.{update, IsBacked, IsBacked-le, IsBacked-update}
use crain.Contracts.Erc20.{
  Event, Contract, transferred, insufficient_balance, emit, balance_of, allowance, set_balance,
  transfer_from_to,
}

module _ (bm : Mapping AccountId ℕ ◌==◌) (am : Mapping (AccountId × AccountId) ℕ pair_eq) where
  -- The balances add up to the total supply; the supply and every allowance are u128.
  pub record IsValid (s : Contract bm am) : Type 0 where
    pub backed : IsBacked (balance_of bm am s) s.total_supply
    pub capped : s.total_supply < u128_mod
    pub allowed : (owner spender : AccountId) → allowance bm am s owner spender < u128_mod

  pub balance_of-set_balance :
      (s : Contract bm am) (k v : ℕ)
      → balance_of bm am (set_balance bm am s k v) ≡ update (balance_of bm am s) k v
  unfolding balance_of set_balance
  balance_of-set_balance s k v = fun_ext λ j. rw (bm.get-insert s.balances k j v) (ground arith)

  -- The state after a transfer.
  abbrev pub moved : AccountId → AccountId → ℕ → Contract bm am → Contract bm am
  moved from to value s =
      let debited = set_balance bm am s from (balance_of bm am s from - value) in
      emit (transferred (some from) (some to) value)
        (set_balance bm am debited to (balance_of bm am debited to + value))

  -- The two updates, on balances as a function.
  abbrev pub shift : AccountId → AccountId → ℕ → (ℕ → ℕ) → ℕ → ℕ
  shift from to value f =
      let debited = update f from (f from - value) in update debited to (debited to + value)

  balance_of-emit :
      (s : Contract bm am) (e : Event) → balance_of bm am (emit e s) ≡ balance_of bm am s
  unfolding balance_of
  balance_of-emit s e = refl

  pub balance_of-moved :
      (from to value : ℕ) (s : Contract bm am)
      → balance_of bm am (moved from to value s) ≡ shift from to value (balance_of bm am s)
  balance_of-moved from to value s =
      balance_of-emit (set_balance bm am debited to (balance_of bm am debited to + value))
        (transferred (some from) (some to) value)
      ∙ balance_of-set_balance debited to (balance_of bm am debited to + value)
      ∙ ap (λ (g : ℕ → ℕ). update g to (g to + value))
          (balance_of-set_balance s from (balance_of bm am s from - value))
    where
      debited : Contract bm am
      debited = set_balance bm am s from (balance_of bm am s from - value)

  -- The balance of each account after a transfer.
  pub balance_of-transfer :
      (from to value : ℕ) (s : Contract bm am) (a : AccountId)
      → value ≤ balance_of bm am s from
      → balance_of bm am (moved from to value s) a ≡ (
          if from == to
          then balance_of bm am s a
          else (if from == a
              then balance_of bm am s a - value
              else (if to == a then balance_of bm am s a + value else balance_of bm am s a)))
  balance_of-transfer from to value s a h = rw (balance_of-moved from to value s) (ground arith)

  shift-IsBacked :
      {f : ℕ → ℕ} {supply : ℕ} (from to value : ℕ)
      → value ≤ f from
      → IsBacked f supply
      → IsBacked (shift from to value f) supply
        × (update f from (f from - value) to + value ≤ supply)
  shift-IsBacked {f} {supply} from to value h b =
      let debited : ℕ → ℕ = update f from (f from - value) in
      let b₁ = IsBacked-update from (f from - value) b in
      let b₂ = IsBacked-update to (debited to + value) b₁ in
      let same : supply - f from + (f from - value) - debited to + (debited to + value) ≡ supply =
        omega (arith, IsBacked-le from b, IsBacked-le to b₁) in
      (rw same at b₂, omega (arith, IsBacked-le from b, IsBacked-le to b₁))

  module _ (b : Build) (from to value : ℕ) {s : Contract bm am} (v : IsValid s) where
    -- On a valid state no addition overflows, in any build.
    pub transfer_from_to_enough :
        value ≤ balance_of bm am s from
        → transfer_from_to bm am b from to value s ≡ done (ok tt, moved from to value s)
    unfolding transfer_from_to
    transfer_from_to_enough h = rw (le→ltb_false _ _ h) (
        rw (
          sub-eq_of_le u128_mod b (balance_of bm am s from) value h
              (omega (arith, IsBacked-le from v.backed, v.capped)),
          add-eq_of_lt u128_mod b _ value fits,
        ))
      where
        fits :
            balance_of bm am (set_balance bm am s from (balance_of bm am s from - value)) to + value
            < u128_mod
        fits =
            rw (balance_of-set_balance s from (balance_of bm am s from - value))
              (omega (arith, (shift-IsBacked from to value h v.backed).1, v.capped))

    pub transfer_from_to_short :
        balance_of bm am s from < value
        → transfer_from_to bm am b from to value s ≡ done (err insufficient_balance, s)
    unfolding transfer_from_to
    transfer_from_to_short h = rw (lt→ltb _ _ h)

    pub moved-IsValid : value ≤ balance_of bm am s from → IsValid (moved from to value s)
    unfolding set_balance allowance
    moved-IsValid h = record {
      backed = rw (balance_of-moved from to value s) (shift-IsBacked from to value h v.backed).0;
      capped = v.capped;
      allowed = v.allowed;
    }

    -- A transfer of no more than the sender has, on a valid state, succeeds in every build: it
    -- emits one event, keeps supply and allowances, moves exactly `value` between the two accounts
    -- and changes no other balance; to the sender itself it changes none.
    transfer_moves :
        value ≤ balance_of bm am s from
        → (s' : Contract bm am) × (transfer_from_to bm am b from to value s ≡ done (ok tt, s'))
          × (s'.events ≡ s.events ++ (transferred (some from) (some to) value ∷ []))
          × (s'.total_supply ≡ s.total_supply)
          × (s'.allowances ≡ s.allowances)
          × ((a : AccountId)
              → balance_of bm am s' a ≡ (
                  if from == to
                  then balance_of bm am s a
                  else (if from == a
                      then balance_of bm am s a - value
                      else (if to == a
                          then balance_of bm am s a + value
                          else balance_of bm am s a))))
    unfolding set_balance
    transfer_moves h = (
      moved from to value s,
      transfer_from_to_enough h,
      refl,
      refl,
      refl,
      λ a. balance_of-transfer from to value s a h,
    )
