-- ===== src/Contracts/Moneybag/Bids.antt =====
-- The bids of contracts/moneybag/src/lib.rs that do not end the game, and those after its end.
use crain.Prelude.{
  ℕ, ◌+◌, ◌/◌, ◌≤◌, ◌<◌, ◌≡◌, refl, ◌∙◌, ◌⊎◌, inl, inr, Bool-cases, true, false, ltb, ◌==◌,
  if◌then◌else◌, max, ◌∷◌, [], ◌++◌, some, done, ok, err, arith, ltb→lt, ltb_false→le, lt→leb_false,
}
use crain.Prelude.Machine.{Build, u128_mod}
use crain.Ink.{AccountId, Mapping}
use crain.Ink.Balances.{contains}
use crain.Contracts.Moneybag.{
  Environment, Contract, Reply, bid_made, duplicate_member, bid_too_low, emit, conclude, add_bid,
}
use crain.Contracts.Moneybag.Rules.{
  IsValid, accepted, add_bid_taken, accepted-IsGame, get-accepted, with_log-IsGame,
}

module _ (m : Mapping AccountId ℕ ◌==◌) where
  -- What an accepted bid does to the game.
  pub record Takes (caller amount : ℕ) (s s' : Contract m) : Type 0 where
    pub counted : s'.bids_made ≡ s.bids_made + 1
    pub joined : s'.members ≡ s.members ++ (caller ∷ [])
    pub raised : s'.max_bid ≡ max s.max_bid amount
    pub bid_of :
        (a : AccountId) → m.get s'.bids a ≡ (if caller == a then some amount else m.get s.bids a)

  -- While at least two places are free, `add_bid` with a u128 amount returns on a valid state in
  -- every build, and its state is valid. It accepts the bid if it is at least half the highest one
  -- and the caller is no member yet: the caller joins with that bid, and the highest bid follows.
  -- Otherwise it returns the error for the first of the two that fails, and changes nothing.
  pub add_bid_before_last :
      (b : Build) (env : Environment) (caller : AccountId) (amount : ℕ) {s : Contract m}
      → IsValid m s
      → s.bids_made + 1 < s.size
      → amount < u128_mod
      → (reply : Reply) × (s' : Contract m) × (add_bid m b env caller amount s ≡ done (reply, s'))
        × IsValid m s'
        × ((reply ≡ ok tt)
              × (s.max_bid / 2 ≤ amount)
              × (contains s.members caller ≡ false)
              × Takes caller amount s s'
              × (s'.payments ≡ s.payments)
            ⊎ (reply ≡ err bid_too_low) × (amount < s.max_bid / 2) × (s' ≡ s)
            ⊎ (reply ≡ err duplicate_member)
              × (s.max_bid / 2 ≤ amount)
              × (contains s.members caller ≡ true)
              × (s' ≡ s))
  unfolding add_bid conclude
  add_bid_before_last b env caller amount {s} v h k =
      elim (Bool-cases (ltb amount (s.max_bid / 2))) [
        | inl low ↦ (
          err bid_too_low,
          s,
          rw (lt→leb_false _ _ open_place, low),
          v,
          inr (inl (refl, ltb→lt _ _ low, refl)),
        )
        | inr enough ↦ elim (Bool-cases (contains s.members caller)) [
          | inl again ↦ (
            err duplicate_member,
            s,
            rw (lt→leb_false _ _ open_place, enough, again),
            v,
            inr (inr (refl, ltb_false→le _ _ enough, again, refl)),
          )
          | inr new_one ↦ (
            ok tt,
            emit (bid_made (some caller) amount) (accepted m caller amount s),
            add_bid_taken m b caller amount v.game env open_place (ltb_false→le _ _ enough) new_one
                ∙ early,
            ended new_one,
            inl (refl, ltb_false→le _ _ enough, new_one, takes, refl),
          )
        ]
      ]
    where
      open_place : s.bids_made < s.size
      open_place = omega arith

      early :
          conclude m b env caller amount (accepted m caller amount s)
          ≡ done (ok tt, emit (bid_made (some caller) amount) (accepted m caller amount s))
      early = ground arith

      ended :
          contains s.members caller ≡ false
          → IsValid m (emit (bid_made (some caller) amount) (accepted m caller amount s))
      ended n = record {
        game =
            with_log-IsGame m (s.events ++ (bid_made (some caller) amount ∷ [])) s.payments
              (accepted-IsGame m b caller amount v.game n open_place k);
        paid = ground (arith, v.paid);
      }

      takes :
          Takes caller amount s (emit (bid_made (some caller) amount) (accepted m caller amount s))
      takes = record {
        counted = refl;
        joined = refl;
        raised = ground arith;
        bid_of = λ a. get-accepted m b caller amount v.game a;
      }
