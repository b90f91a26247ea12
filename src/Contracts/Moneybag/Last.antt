-- ===== src/Contracts/Moneybag/Last.antt =====
-- The fifth bid of contracts/moneybag/src/lib.rs, which ends the game or traps.
use crain.Prelude.{
  ==_iff, ℕ, ◌+◌, ◌/◌, ◌%◌, ◌≤◌, ◌<◌, ◌≡◌, refl, ap, ◌∙◌, inl, inr, true, false, ◌==◌, ◌∷◌, [],
  ◌++◌, length, length-append, get_elem?, some, Outcome-cases, ◌>>=◌, done, panic, ok,
  if◌then◌else◌, Outcome, arith,
}
use crain.Prelude.Machine.{Build, u128_mod, fit}
use crain.Ink.{AccountId, Mapping}
use crain.Ink.Balances.{contains, sum_of}
use crain.Contracts.Moneybag.{
  Environment, Contract, bid_made, max_bids_reached, prize_transfered, emit, unwrap, get_total_sum,
  find_winner, give_prize, conclude, add_bid,
}
use crain.Contracts.Moneybag.Rules.{
  IsGame, IsValid, accepted, add_bid_taken, accepted-IsGame, with_log-IsGame,
}
use crain.Contracts.Moneybag.Prize.{
  gen_range_lem, bid_of, total_loop_lem, get_elem?-lt, get_elem?-ge, pot, pot-accepted,
}

module _ (m : Mapping AccountId ℕ ◌==◌) where
  -- The number that the generator makes for a caller, in the range that the code takes it to.
  abbrev pub draw : Environment → AccountId → ℕ
  draw env caller = env.next_u64 (env.random caller) % 6

  pub find_winner_lem :
      (b : Build) (env : Environment) (caller : AccountId) (s : Contract m)
      → s.size ≡ 5
      → find_winner m b env caller s ≡ unwrap (get_elem? s.members (draw env caller))
  unfolding find_winner
  find_winner_lem b env caller s e =
      rw (e, gen_range_lem b 0 5 (env.next_u64 (env.random caller)) (omega arith) (omega arith))
        (ap (λ i. unwrap (get_elem? s.members i)) (omega arith))

  get_total_sum_lem :
      (b : Build) {s : Contract m}
      → IsGame m s
      → get_total_sum m b s ≡ fit u128_mod b (sum_of (bid_of m s) s.members)
  unfolding get_total_sum
  get_total_sum_lem b {s} v =
      total_loop_lem m b s s.members 0 (λ a e. let (x, g, l) = v.bidden a e in (x, g)) (omega arith)
      ∙ ap (fit u128_mod b) (omega arith)

  pub no_prize_from :
      (b : Build) (env : Environment) (caller : AccountId) (s : Contract m)
      → find_winner m b env caller s ≡ panic
      → give_prize m b env caller s ≡ panic
  unfolding give_prize
  no_prize_from b env caller s e = elim (Outcome-cases (get_total_sum m b s)) [
    | inl f ↦ rw f
    | inr (total, f) ↦ rw (f, e)
  ]

  -- What `give_prize` makes of a sum and a winner.
  abbrev pub pay : Environment → AccountId → ℕ → Contract m → Outcome (Contract m)
  pay env winner total s =
      if env.transfer winner total
      then done
          (emit prize_transfered (record s { payments = s.payments ++ ((winner, total) ∷ []) }))
      else panic

  pub prize_from :
      (b : Build) (env : Environment) (caller winner : AccountId) (total : ℕ) (s : Contract m)
      → get_total_sum m b s ≡ done total
      → find_winner m b env caller s ≡ done winner
      → give_prize m b env caller s ≡ pay env winner total s
  unfolding give_prize
  prize_from b env caller winner total s e f = rw (e, f)

  no_prize_without :
      (b : Build) (env : Environment) (caller : AccountId) (s : Contract m)
      → get_total_sum m b s ≡ panic
      → give_prize m b env caller s ≡ panic
  unfolding give_prize
  no_prize_without b env caller s e = rw e

  module _ (b : Build) (env : Environment) (caller : AccountId) (amount : ℕ) {s : Contract m}
      (v : IsValid m s) (last : s.bids_made + 1 ≡ s.size) (enough : s.max_bid / 2 ≤ amount)
      (small : amount < u128_mod) (fresh : contains s.members caller ≡ false) where
    abbrev pub filled : Contract m
    filled = accepted m caller amount s

    pub filled-IsGame : IsGame m filled
    filled-IsGame = accepted-IsGame m b caller amount v.game fresh (omega arith) small

    pub last_is_taken : add_bid m b env caller amount s ≡ conclude m b env caller amount filled
    last_is_taken = add_bid_taken m b caller amount v.game env (omega arith) enough fresh

    crowd : length filled.members ≡ 5
    crowd = omega (arith, filled-IsGame.counted, filled-IsGame.five, last)

    -- The state that `give_prize` starts from.
    abbrev pub closed : Contract m
    closed = emit max_bids_reached filled

    pub conclude_last : conclude m b env caller amount filled ≡ (
        give_prize m b env caller closed >>= λ s'.
        done (ok tt, emit (bid_made (some caller) amount) s'))
    unfolding conclude
    conclude_last = rw ((==_iff (s.bids_made + 1) s.size).1 last)

    -- The message ends as the prize does.
    ends_as :
        (o : Outcome (Contract m))
        → give_prize m b env caller closed ≡ o
        → add_bid m b env caller amount s
          ≡ (o >>= λ s'. done (ok tt, emit (bid_made (some caller) amount) s'))
    ends_as o e =
        last_is_taken
        ∙ conclude_last
        ∙ ap (λ p. p >>= λ s'. done (ok tt, emit (bid_made (some caller) amount) s')) e

    -- The generator's number 5 is no member's place: the fifth bid then traps, in every build and
    -- whatever the bids are.
    pub add_bid_last_traps : draw env caller ≡ 5 → add_bid m b env caller amount s ≡ panic
    add_bid_last_traps e = ends_as panic (no_prize_from b env caller closed no_winner)
      where
        no_winner : find_winner m b env caller closed ≡ panic
        no_winner =
            find_winner_lem b env caller closed v.game.five
            ∙ ap unwrap (get_elem?-ge m filled.members (draw env caller) (omega (arith, crowd)))

    -- Every other number is.
    pub winner_place :
        draw env caller < 5
        → (a : AccountId) × (get_elem? filled.members (draw env caller) ≡ some a)
          × (contains filled.members a ≡ true)
    winner_place d = get_elem?-lt m filled.members (draw env caller) (omega (arith, d, crowd))

    pub sum_here : get_total_sum m b closed ≡ fit u128_mod b (pot m s amount)
    sum_here =
        get_total_sum_lem b {s = closed}
          (with_log-IsGame m closed.events closed.payments filled-IsGame)
        ∙ ap (fit u128_mod b) (pot-accepted m b caller amount v.game fresh)

    -- The prize, for a sum and a winner.
    give_prize-pay :
        (winner : AccountId) (total : ℕ)
        → fit u128_mod b (pot m s amount) ≡ done total
        → get_elem? filled.members (draw env caller) ≡ some winner
        → give_prize m b env caller closed ≡ pay env winner total closed
    give_prize-pay winner total e f =
        prize_from b env caller winner total closed (sum_here ∙ e)
          (find_winner_lem b env caller closed v.game.five ∙ ap unwrap f)

    no_prize_for :
        fit u128_mod b (pot m s amount) ≡ panic → give_prize m b env caller closed ≡ panic
    no_prize_for e = no_prize_without b env caller closed (sum_here ∙ e)

    abbrev prized : AccountId → ℕ → Contract m
    prized winner total =
        emit prize_transfered
          (record closed { payments = closed.payments ++ ((winner, total) ∷ []) })

    -- The state after the game.
    abbrev pub paid_out : AccountId → ℕ → Contract m
    paid_out winner total = emit (bid_made (some caller) amount) (prized winner total)

    pub returns_paid :
        (winner : AccountId) (total : ℕ)
        → fit u128_mod b (pot m s amount) ≡ done total
        → get_elem? filled.members (draw env caller) ≡ some winner
        → env.transfer winner total ≡ true
        → add_bid m b env caller amount s ≡ done (ok tt, paid_out winner total)
    returns_paid winner total e f t =
        ends_as (done (prized winner total)) (give_prize-pay winner total e f ∙ rw t refl)

    pub traps_unpaid :
        (winner : AccountId) (total : ℕ)
        → fit u128_mod b (pot m s amount) ≡ done total
        → get_elem? filled.members (draw env caller) ≡ some winner
        → env.transfer winner total ≡ false
        → add_bid m b env caller amount s ≡ panic
    traps_unpaid winner total e f t = ends_as panic (give_prize-pay winner total e f ∙ rw t refl)

    pub traps_unsummed :
        fit u128_mod b (pot m s amount) ≡ panic → add_bid m b env caller amount s ≡ panic
    traps_unsummed e = ends_as panic (no_prize_for e)

    pub paid_out-IsValid : (winner : AccountId) (total : ℕ) → IsValid m (paid_out winner total)
    paid_out-IsValid winner total = record {
      game =
          with_log-IsGame m (paid_out winner total).events (paid_out winner total).payments
            filled-IsGame;
      paid = ground (arith, length-append s.payments ((winner, total) ∷ []), v.paid);
    }
