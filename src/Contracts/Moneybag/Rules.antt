-- ===== src/Contracts/Moneybag/Rules.antt =====
-- What `add_bid` of contracts/moneybag/src/lib.rs accepts and refuses, and the state it keeps.
use crain.Prelude.{
  ℕ, ◌+◌, ◌/◌, ◌≤◌, ◌<◌, ◌≡◌, refl, inl, inr, Bool-cases, true, false, ◌||◌, ltb, ◌==◌,
  if◌then◌else◌, List, [], ◌∷◌, ◌++◌, length, length-append, some, none, done, arith, le→ltb_false,
  lt→leb_false,
}
use crain.Prelude.Machine.{Build, add-eq_of_lt, u32_mod, u128_mod}
use crain.Ink.{AccountId, Mapping}
use crain.Ink.Balances.{contains, Distinct}
use crain.Contracts.Moneybag.{Event, Environment, Contract, new, accept, conclude, add_bid}

contains-append_one :
    (xs : List ℕ) (a j : ℕ) → contains (xs ++ (a ∷ [])) j ≡ (contains xs j || a == j)
contains-append_one [] a j = ground arith
contains-append_one (x ∷ xs) a j = ground (arith, contains-append_one xs a j)

Distinct-append_one :
    (xs : List ℕ) (a : ℕ) → Distinct xs → contains xs a ≡ false → Distinct (xs ++ (a ∷ []))
Distinct-append_one [] a d h = (refl, tt)
Distinct-append_one (x ∷ xs) a d h =
    ground (arith, contains-append_one xs a x, Distinct-append_one xs a d.1)

module _ (m : Mapping AccountId ℕ ◌==◌) where
  -- A game: five places, the members distinct and counted, a bid for each member of at most the
  -- highest bid and none for anybody else, the highest bid that of a member and a u128.
  pub record IsGame (s : Contract m) : Type 0 where
    pub five : s.size ≡ 5
    pub counted : s.bids_made ≡ length s.members
    pub within : s.bids_made ≤ s.size
    pub distinct : Distinct s.members
    pub bidden :
        (a : AccountId)
        → contains s.members a ≡ true
        → (v : ℕ) × (m.get s.bids a ≡ some v) × (v ≤ s.max_bid)
    pub no_others : (a : AccountId) → contains s.members a ≡ false → m.get s.bids a ≡ none
    pub highest :
        (a : AccountId) × (contains s.members a ≡ true) × (m.get s.bids a ≡ some s.max_bid)
    pub capped : s.max_bid < u128_mod

  -- Between two calls there has been one payment if the places are filled, and none before.
  pub record IsValid (s : Contract m) : Type 0 where
    pub game : IsGame s
    pub paid : length s.payments ≡ (if s.bids_made == s.size then 1 else 0)

  new-IsGame : (caller first_bid : ℕ) → first_bid < u128_mod → IsGame (new m caller first_bid)
  unfolding new
  new-IsGame caller first_bid h = record {
    five = refl;
    counted = refl;
    within = omega arith;
    distinct = (refl, tt);
    bidden = λ a e.
        (first_bid, rw (m.get-insert m.empty caller a first_bid) (ground arith), omega arith);
    no_others = λ a e. rw (m.get-insert m.empty caller a first_bid, m.get-empty a) (ground arith);
    highest =
        (caller, ground arith, rw (m.get-insert m.empty caller caller first_bid) (ground arith));
    capped = h;
  }

  -- A new contract has its first member, whose bid is the highest.
  pub new-IsValid : (caller first_bid : ℕ) → first_bid < u128_mod → IsValid (new m caller first_bid)
  unfolding new
  new-IsValid caller first_bid h = record { game = new-IsGame caller first_bid h; paid = refl }

  -- The state with the new bid.
  abbrev pub accepted : AccountId → ℕ → Contract m → Contract m
  accepted caller amount s = record s {
    bids = m.insert s.bids caller amount;
    members = s.members ++ (caller ∷ []);
    bids_made = s.bids_made + 1;
    max_bid = if ltb s.max_bid amount then amount else s.max_bid;
  }

  module _ (b : Build) (caller amount : ℕ) {s : Contract m} (v : IsGame s) where
    pub accept_lem : accept m b caller amount s ≡ done (accepted caller amount s)
    unfolding accept
    accept_lem = rw (add-eq_of_lt u32_mod b s.bids_made 1 (omega (arith, v.within, v.five)))

    -- With a free place, a bid of at least half the highest one by a new member is accepted.
    pub add_bid_taken :
        (env : Environment)
        → s.bids_made < s.size
        → s.max_bid / 2 ≤ amount
        → contains s.members caller ≡ false
        → add_bid m b env caller amount s
          ≡ conclude m b env caller amount (accepted caller amount s)
    unfolding add_bid
    add_bid_taken env h k n = rw (lt→leb_false _ _ h, le→ltb_false _ _ k, n, accept_lem)

    -- A read after the bid.
    pub get-accepted :
        (a : AccountId)
        → m.get (accepted caller amount s).bids a
          ≡ (if caller == a then some amount else m.get s.bids a)
    get-accepted a = m.get-insert s.bids caller a amount

    module _ (n : contains s.members caller ≡ false) where
      accepted-bidden :
          (a : AccountId)
          → contains (accepted caller amount s).members a ≡ true
          → (x : ℕ) × (m.get (accepted caller amount s).bids a ≡ some x)
            × (x ≤ (accepted caller amount s).max_bid)
      accepted-bidden a e = elim (Bool-cases (caller == a)) [
        | inl same ↦ (amount, rw (get-accepted a, same), ground arith)
        | inr other ↦
            let (x, g, l) = v.bidden a (ground (arith, contains-append_one s.members caller a)) in
            (x, rw (get-accepted a, other) g, ground arith)
      ]

      accepted-no_others :
          (a : AccountId)
          → contains (accepted caller amount s).members a ≡ false
          → m.get (accepted caller amount s).bids a ≡ none
      accepted-no_others a e =
          rw (get-accepted a)
            (ground (arith, contains-append_one s.members caller a, v.no_others a))

      accepted-highest :
          (a : AccountId) × (contains (accepted caller amount s).members a ≡ true)
          × (m.get (accepted caller amount s).bids a ≡ some (accepted caller amount s).max_bid)
      accepted-highest = elim (Bool-cases (ltb s.max_bid amount)) [
        | inl more ↦ (
          caller,
          ground (arith, contains-append_one s.members caller caller),
          rw (get-accepted caller, more) (ground arith),
        )
        | inr less ↦
            let (a, e, g) = v.highest in
            (
              a,
              ground (arith, contains-append_one s.members caller a),
              rw (get-accepted a, less) (ground arith),
            )
      ]

      -- The bid keeps the game, but that it may leave the prize to be paid.
      pub accepted-IsGame :
          s.bids_made < s.size → amount < u128_mod → IsGame (accepted caller amount s)
      accepted-IsGame h k = record {
        five = v.five;
        counted = omega (arith, v.counted, length-append s.members (caller ∷ []));
        within = within;
        distinct = Distinct-append_one s.members caller v.distinct n;
        bidden = accepted-bidden;
        no_others = accepted-no_others;
        highest = accepted-highest;
        capped = ground (arith, v.capped);
      }
        where
          within : s.bids_made + 1 ≤ s.size
          within = omega arith

  -- Neither events nor payments matter to the game.
  abbrev pub with_log : List Event → List (AccountId × ℕ) → Contract m → Contract m
  with_log events payments s = record s { events = events; payments = payments }

  pub with_log-IsGame :
      (events : List Event) (payments : List (AccountId × ℕ)) {s : Contract m}
      → IsGame s
      → IsGame (with_log events payments s)
  with_log-IsGame events payments v = record {
    five = v.five;
    counted = v.counted;
    within = v.within;
    distinct = v.distinct;
    bidden = v.bidden;
    no_others = v.no_others;
    highest = v.highest;
    capped = v.capped;
  }
