-- ===== src/Contracts/Moneybag/Prize.antt =====
-- The last bid of contracts/moneybag/src/lib.rs: the sum, the winner, and the trap of `gen_range`.
use crain.Prelude.{
  ℕ, zero, suc, ◌+◌, ◌-◌, ◌%◌, ◌≤◌, ◌<◌, ◌≡◌, refl, ap, inl, inr, sym, ◌∙◌, true, false, ◌==◌, max,
  List, ◌∷◌, [], ◌++◌, length, get_elem?, some, none, done, ◌>>=◌, arith,
}
use native.Mathlib.Nat.{mod-eq_of_lt}
use crain.Prelude.Machine.{
  Build, fit, fit-eq_of_lt, fit-cases, add, add-eq_of_lt, sub-eq_of_le, rem-eq_of_pos, u64_mod,
  u128_mod,
}
use crain.Ink.{AccountId, Mapping, or_zero}
use crain.Ink.Balances.{contains, sum_of}
use crain.Contracts.Moneybag.{Contract, gen_range, total_loop}
use crain.Contracts.Moneybag.Rules.{IsGame, accepted, get-accepted}

-- `gen_range` returns `min` plus the generator's remainder by one more than the difference, and
-- never traps, in every build, while `min` is at most `max` and `max` is below the largest u64.
pub gen_range_lem :
    (b : Build) (min max next : ℕ)
    → min ≤ max
    → max + 1 < u64_mod
    → gen_range b min max next ≡ done (next % (max - min + 1) + min)
unfolding gen_range
gen_range_lem b min max next h k =
    rw
      (
        sub-eq_of_le u64_mod b max min h (omega arith),
        add-eq_of_lt u64_mod b (max - min) 1 (omega arith),
        rem-eq_of_pos next (max - min + 1) (omega arith),
      )
      (add-eq_of_lt u64_mod b (next % (max - min + 1)) min (omega arith))

-- Every number from `low` to `high`, both ends included, is what `gen_range` returns in every build
-- for some u64 of the generator, if `high` is below the largest u64.
gen_range_reaches :
    (b : Build) (low high r : ℕ)
    → low ≤ r
    → r ≤ high
    → high + 1 < u64_mod
    → (next : ℕ) × (next < u64_mod) × (gen_range b low high next ≡ done r)
gen_range_reaches b low high r h k l =
    (r - low, omega arith, gen_range_lem b low high (r - low) (omega arith) l ∙ ap done offset)
  where
    within : r - low < high - low + 1
    within = omega arith

    offset : (r - low) % (high - low + 1) + low ≡ r
    offset = rw (mod-eq_of_lt within) (omega arith)

module _ (m : Mapping AccountId ℕ ◌==◌) where
  -- The bid of an account, 0 if there is none.
  abbrev pub bid_of : Contract m → AccountId → ℕ
  bid_of s a = or_zero (m.get s.bids a)

  total_loop-∷ :
      (b : Build) (s : Contract m) (a : AccountId) (l : List AccountId) (acc v : ℕ)
      → m.get s.bids a ≡ some v
      → total_loop m b s.bids (a ∷ l) acc
        ≡ (fit u128_mod b (acc + v) >>= λ t. total_loop m b s.bids l t)
  unfolding total_loop add
  total_loop-∷ b s a l acc v e = rw e refl

  sum_of-∷ :
      (s : Contract m) (a : AccountId) (l : List AccountId) (acc v : ℕ)
      → m.get s.bids a ≡ some v
      → acc + v + sum_of (bid_of s) l ≡ acc + sum_of (bid_of s) (a ∷ l)
  sum_of-∷ s a l acc v e = rw e (omega arith)

  -- The loop adds up the members' bids, if each has one: what a build makes of their exact sum.
  pub total_loop_lem :
      (b : Build) (s : Contract m) (l : List AccountId) (acc : ℕ)
      → ((a : AccountId) → contains l a ≡ true → (v : ℕ) × (m.get s.bids a ≡ some v))
      → acc < u128_mod
      → total_loop m b s.bids l acc ≡ fit u128_mod b (acc + sum_of (bid_of s) l)
  unfolding total_loop
  total_loop_lem b s [] acc h k =
      ap done (omega arith) ∙ sym (fit-eq_of_lt u128_mod b (acc + 0) (omega arith))
  total_loop_lem b s (a ∷ l) acc h k =
      let (v, e) = h a (ground arith) in
      let rest = sum_of (bid_of s) l in
      rw (← sum_of-∷ s a l acc v e) (
        total_loop-∷ b s a l acc v e ∙ elim (fit-cases u128_mod b (acc + v) (omega arith)) [
          | inl (f, later) ↦ ap (λ o. o >>= λ t. total_loop m b s.bids l t) f ∙ sym (later rest)
          | inr (t, f, small, later) ↦
              ap (λ o. o >>= λ t. total_loop m b s.bids l t) f
              ∙ total_loop_lem b s l t (λ x i. h x (ground arith)) small
              ∙ later rest
        ])

  pub get_elem?-lt :
      (xs : List AccountId) (i : ℕ)
      → i < length xs
      → (a : AccountId) × (get_elem? xs i ≡ some a) × (contains xs a ≡ true)
  get_elem?-lt [] i h = absurd (omega arith)
  get_elem?-lt (x ∷ xs) zero h = (x, refl, ground arith)
  get_elem?-lt (x ∷ xs) (suc i) h =
      let (a, e, c) = get_elem?-lt xs i (omega arith) in (a, e, ground arith)

  pub get_elem?-ge : (xs : List AccountId) (i : ℕ) → length xs ≤ i → get_elem? xs i ≡ none
  get_elem?-ge [] i h = refl
  get_elem?-ge (x ∷ xs) zero h = absurd (omega arith)
  get_elem?-ge (x ∷ xs) (suc i) h = get_elem?-ge xs i (omega arith)

  -- The sum over accounts that the last bidder is not among.
  sum_of-accepted :
      (b : Build) (caller amount : ℕ) {s : Contract m} (v : IsGame m s) (l : List AccountId)
      → contains l caller ≡ false
      → sum_of (bid_of (accepted m caller amount s)) l ≡ sum_of (bid_of s) l
  sum_of-accepted b caller amount v [] h = refl
  sum_of-accepted b caller amount {s} v (a ∷ l) h =
      rw (get-accepted m b caller amount v a) (ground (arith, sum_of-accepted b caller amount v l))

  sum_of-append_one : (f : ℕ → ℕ) (l : List ℕ) (a : ℕ) → sum_of f (l ++ (a ∷ [])) ≡ sum_of f l + f a
  sum_of-append_one f [] a = omega arith
  sum_of-append_one f (x ∷ l) a = omega (arith, sum_of-append_one f l a)

  -- What is paid out: the bids so far, and the last one.
  abbrev pub pot : Contract m → ℕ → ℕ
  pot s amount = sum_of (bid_of s) s.members + amount

  pub pot-accepted :
      (b : Build) (caller amount : ℕ) {s : Contract m} (v : IsGame m s)
      → contains s.members caller ≡ false
      → sum_of (bid_of (accepted m caller amount s)) (accepted m caller amount s).members
        ≡ pot s amount
  pot-accepted b caller amount {s} v n =
      sum_of-append_one (bid_of (accepted m caller amount s)) s.members caller
      ∙ rw (get-accepted m b caller amount v caller)
          (ground (arith, sum_of-accepted b caller amount v s.members n))
