-- ===== src/Contracts/Moneybag/Rounds.antt =====
-- Any sequence of calls of contracts/moneybag/src/lib.rs: the members stay distinct, and the prize
-- is paid at most once.
use crain.Prelude.{
  ℕ, ◌+◌, ◌/◌, ◌≤◌, ◌<◌, ◌≡◌, inl, inr, Bool-cases, true, false, ltb, leb, ltb_false→le, ltb→lt,
  leb_false→lt, ◌==◌, List, ◌∷◌, [], ◌++◌, length, length-append, some, Outcome, Outcome-cases,
  done, panic, err, arith, All,
}
use crain.Prelude.Machine.{Build, u128_mod}
use crain.Ink.{AccountId, Mapping}
use crain.Ink.Balances.{contains}
use crain.Contracts.Moneybag.{
  Environment, Contract, Reply, max_bids, bid_too_low, duplicate_member, bid_made, max_bids_reached,
  prize_transfered, emit, get_total_sum, find_winner, give_prize, new, add_bid,
}
use crain.Contracts.Moneybag.Rules.{IsValid, new-IsValid, with_log-IsGame}
use crain.Contracts.Moneybag.Bids.{add_bid_before_last}
use crain.Contracts.Moneybag.Last.{closed, filled-IsGame, last_is_taken, conclude_last}

-- A call of `add_bid`: what its environment does, the caller and the amount.
pub record Call : Type 1 where
  pub env : Environment
  pub caller : AccountId
  pub amount : ℕ

module _ (m : Mapping AccountId ℕ ◌==◌) where
  -- What a call leaves behind: a trap undoes it.
  abbrev pub after : Contract m → Outcome (Reply × Contract m) → Contract m
  after s (done (reply, s')) = s'
  after s panic = s

  unfoldable pub run : Build → List Call → Contract m → Contract m
  run b [] s = s
  run b (c ∷ later) s = run b later (after s (add_bid m b c.env c.caller c.amount s))

  -- Whatever `give_prize` returns, it has made one payment more.
  give_prize_pays :
      (b : Build) (env : Environment) (caller : AccountId) (s s' : Contract m)
      → give_prize m b env caller s ≡ done s'
      → (payment : AccountId × ℕ) × (s'
          ≡ emit prize_transfered (record s { payments = s.payments ++ (payment ∷ []) }))
  unfolding give_prize
  give_prize_pays b env caller s s' h = elim (Outcome-cases (get_total_sum m b s)) [
    | inl e ↦ absurd (ground arith)
    | inr (total, e) ↦ elim (Outcome-cases (find_winner m b env caller s)) [
      | inl f ↦ absurd (ground arith)
      | inr (winner, f) ↦ ((winner, total), ground arith)
    ]
  ]

  -- The last bid, however it ends.
  last-IsValid :
      (b : Build) (c : Call) {s : Contract m}
      → IsValid m s
      → s.bids_made + 1 ≡ s.size
      → s.max_bid / 2 ≤ c.amount
      → c.amount < u128_mod
      → contains s.members c.caller ≡ false
      → IsValid m (after s (add_bid m b c.env c.caller c.amount s))
  last-IsValid b c {s} v last enough small fresh =
      rw
        (
          last_is_taken m b c.env c.caller c.amount v last enough small fresh,
          conclude_last m b c.env c.caller c.amount v last enough small fresh,
        )
        (elim (Outcome-cases prize) [
          | inl e ↦ rw e v
          | inr (s', e) ↦
              let (payment, eq) = give_prize_pays b c.env c.caller start s' e in
              rw (e, eq) (ended payment)
        ])
    where
      start : Contract m
      start = closed m b c.env c.caller c.amount v last enough small fresh

      prize : Outcome (Contract m)
      prize = give_prize m b c.env c.caller start

      ended :
          (payment : AccountId × ℕ)
          → IsValid m (
              emit (bid_made (some c.caller) c.amount) (
                emit prize_transfered
                  (record start { payments = start.payments ++ (payment ∷ []) })))
      ended payment = record {
        game =
            with_log-IsGame m _ _
              (filled-IsGame m b c.env c.caller c.amount v last enough small fresh);
        paid = ground (arith, length-append s.payments (payment ∷ []), v.paid);
      }

  -- The refusals.
  module _ (b : Build) (c : Call) (s : Contract m) where
    add_bid_full :
        leb s.size s.bids_made ≡ true
        → add_bid m b c.env c.caller c.amount s ≡ done (err max_bids, emit max_bids_reached s)
    unfolding add_bid
    add_bid_full e = rw e

    add_bid_low :
        leb s.size s.bids_made ≡ false
        → ltb c.amount (s.max_bid / 2) ≡ true
        → add_bid m b c.env c.caller c.amount s ≡ done (err bid_too_low, s)
    unfolding add_bid
    add_bid_low e f = rw (e, f)

    add_bid_again :
        leb s.size s.bids_made ≡ false
        → ltb c.amount (s.max_bid / 2) ≡ false
        → contains s.members c.caller ≡ true
        → add_bid m b c.env c.caller c.amount s ≡ done (err duplicate_member, s)
    unfolding add_bid
    add_bid_again e f g = rw (e, f, g)

  emit-IsValid : {s : Contract m} → IsValid m s → IsValid m (emit max_bids_reached s)
  emit-IsValid {s} v = record {
    game = with_log-IsGame m (s.events ++ (max_bids_reached ∷ [])) s.payments v.game;
    paid = v.paid;
  }

  add_bid-IsValid :
      (b : Build) (c : Call) {s : Contract m}
      → IsValid m s
      → c.amount < u128_mod
      → IsValid m (after s (add_bid m b c.env c.caller c.amount s))
  add_bid-IsValid b c {s} v small = elim (Bool-cases (ltb (s.bids_made + 1) s.size)) [
    | inl early ↦
        let (reply, s', e, v', rest) =
          add_bid_before_last m b c.env c.caller c.amount v (ltb→lt _ _ early) small in
        rw e v'
    | inr late ↦ elim (Bool-cases (leb s.size s.bids_made)) [
      | inl full ↦ rw (add_bid_full b c s full) (emit-IsValid v)
      | inr open_place ↦ elim (Bool-cases (ltb c.amount (s.max_bid / 2))) [
        | inl low ↦ rw (add_bid_low b c s open_place low) v
        | inr enough ↦ elim (Bool-cases (contains s.members c.caller)) [
          | inl again ↦ rw (add_bid_again b c s open_place enough again) v
          | inr fresh ↦
              last-IsValid b c v (omega (arith, ltb_false→le _ _ late, leb_false→lt _ _ open_place))
                (ltb_false→le _ _ enough) small fresh
        ]
      ]
    ]
  ]

  pub run_keeps :
      (b : Build) (calls : List Call) {s : Contract m}
      → IsValid m s
      → All (λ (c : Call). c.amount < u128_mod) calls
      → IsValid m (run b calls s)
  unfolding run
  run_keeps b [] v a = v
  run_keeps b (c ∷ later) v a = run_keeps b later (add_bid-IsValid b c v a.0) a.1

  -- From a new contract with a u128 bid, after any calls of `add_bid` with u128 amounts, by any
  -- callers and with any environments, where a trap undoes its call: the state is valid, so there
  -- are at most five members, all distinct, and the prize has been paid at most once.
  pub run-IsValid :
      (b : Build) (creator first_bid : ℕ) (calls : List Call)
      → first_bid < u128_mod
      → All (λ (c : Call). c.amount < u128_mod) calls
      → let s = run b calls (new m creator first_bid) in
        IsValid m s × (length s.members ≤ 5) × (length s.payments ≤ 1)
  run-IsValid b creator first_bid calls h a =
      let v = run_keeps b calls (new-IsValid m creator first_bid h) a in
      (v, omega (arith, v.game.counted, v.game.within, v.game.five), ground (arith, v.paid))
