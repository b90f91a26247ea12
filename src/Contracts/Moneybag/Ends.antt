-- ===== src/Contracts/Moneybag/Ends.antt =====
-- How the fifth bid of contracts/moneybag/src/lib.rs ends, in every case.
use crain.Prelude.{
  ℕ, ◌+◌, ◌/◌, ◌≤◌, ◌<◌, ◌≡◌, refl, ◌⊎◌, inl, inr, true, false, ==_iff, Bool-cases, ◌==◌, ◌∷◌, [],
  ◌++◌, get_elem?, some, Outcome-cases, done, panic, ok, arith,
}
use native.Mathlib.Nat.{mod-lt}
use crain.Prelude.Machine.{Build, u128_mod, fit, fit-eq_of_lt}
use crain.Ink.{AccountId, Mapping}
use crain.Ink.Balances.{contains}
use crain.Contracts.Moneybag.{Environment, Contract, add_bid}
use crain.Contracts.Moneybag.Rules.{IsValid}
use crain.Contracts.Moneybag.Prize.{pot}
use crain.Contracts.Moneybag.Last.{
  draw, paid_out, paid_out-IsValid, returns_paid, traps_unpaid, traps_unsummed, add_bid_last_traps,
  winner_place,
}

module _ (m : Mapping AccountId ℕ ◌==◌) (b : Build) (env : Environment) (caller : AccountId)
    (amount : ℕ) (s : Contract m) where
  -- The fifth bid pays a sum to a member, by a transfer that succeeds.
  abbrev pub Pays : Type 0
  Pays =
      (winner : AccountId) × (total : ℕ) × (s' : Contract m) × (add_bid m b env caller amount s
        ≡ done (ok tt, s'))
      × (fit u128_mod b (pot m s amount) ≡ done total)
      × (get_elem? s'.members (draw m env caller) ≡ some winner)
      × (contains s'.members winner ≡ true)
      × (env.transfer winner total ≡ true)
      × (s'.payments ≡ s.payments ++ ((winner, total) ∷ []))
      × IsValid m s'

  -- It traps, for one of three reasons.
  abbrev pub Traps : Type 0
  Traps =
      (add_bid m b env caller amount s ≡ panic)
      × ((draw m env caller ≡ 5)
          ⊎ (fit u128_mod b (pot m s amount) ≡ panic)
          ⊎ ((winner : AccountId) × (total : ℕ) × (fit u128_mod b (pot m s amount) ≡ done total)
              × (get_elem? (s.members ++ (caller ∷ [])) (draw m env caller) ≡ some winner)
              × (env.transfer winner total ≡ false)))

  module _ (v : IsValid m s) (last : s.bids_made + 1 ≡ s.size) (enough : s.max_bid / 2 ≤ amount)
      (small : amount < u128_mod) (fresh : contains s.members caller ≡ false) where
    -- With a sum and a winner, the transfer decides.
    ends_by_transfer :
        (winner : AccountId) (total : ℕ)
        → fit u128_mod b (pot m s amount) ≡ done total
        → get_elem? (s.members ++ (caller ∷ [])) (draw m env caller) ≡ some winner
        → contains (s.members ++ (caller ∷ [])) winner ≡ true
        → Pays ⊎ Traps
    ends_by_transfer winner total e f c = elim (Bool-cases (env.transfer winner total)) [
      | inl t ↦ inl (
        winner,
        total,
        paid_out m b env caller amount v last enough small fresh winner total,
        returns_paid m b env caller amount v last enough small fresh winner total e f t,
        e,
        f,
        c,
        t,
        refl,
        paid_out-IsValid m b env caller amount v last enough small fresh winner total,
      )
      | inr t ↦ inr (
        traps_unpaid m b env caller amount v last enough small fresh winner total e f t,
        inr (inr (winner, total, e, f, t)),
      )
    ]

    ends_by_sum : draw m env caller < 5 → Pays ⊎ Traps
    ends_by_sum d = elim (Outcome-cases (fit u128_mod b (pot m s amount))) [
      | inl e ↦ inr (traps_unsummed m b env caller amount v last enough small fresh e, inr (inl e))
      | inr (total, e) ↦
          let (winner, f, c) = winner_place m b env caller amount v last enough small fresh d in
          ends_by_transfer winner total e f c
    ]

    -- The fifth accepted bid of a valid state, in every build and environment, either returns, with
    -- a valid state and one payment, by a transfer that succeeded, of what the build makes of the
    -- sum of the five bids to the member in the generator's place; or it traps, and then the
    -- generator's number is 5 modulo 6, or the sum panics, or that transfer fails.
    pub add_bid_last_ends : Pays ⊎ Traps
    add_bid_last_ends = elim (Bool-cases (draw m env caller == 5)) [
      | inl e ↦
          let five = (==_iff (draw m env caller) 5).0 e in
          inr (add_bid_last_traps m b env caller amount v last enough small fresh five, inl five)
      | inr e ↦
          ends_by_sum
            (ground (arith, mod-lt (env.next_u64 (env.random caller)) {m = 6} (omega arith)))
    ]

    -- So it pays the exact sum, if that is a u128, a member is in the generator's place, and the
    -- transfer is made.
    add_bid_last_pays :
        draw m env caller < 5
        → pot m s amount < u128_mod
        → ((winner : AccountId) → env.transfer winner (pot m s amount) ≡ true)
        → (winner : AccountId) × (s' : Contract m) × (add_bid m b env caller amount s
            ≡ done (ok tt, s'))
          × (get_elem? s'.members (draw m env caller) ≡ some winner)
          × (contains s'.members winner ≡ true)
          × (s'.payments ≡ s.payments ++ ((winner, pot m s amount) ∷ []))
          × IsValid m s'
    add_bid_last_pays d small_pot transfers =
        let total = pot m s amount in
        let (winner, f, c) = winner_place m b env caller amount v last enough small fresh d in
        let e = fit-eq_of_lt u128_mod b total small_pot in
        (
          winner,
          paid_out m b env caller amount v last enough small fresh winner total,
          returns_paid m b env caller amount v last enough small fresh winner total e f
              (transfers winner),
          f,
          c,
          refl,
          paid_out-IsValid m b env caller amount v last enough small fresh winner total,
        )
