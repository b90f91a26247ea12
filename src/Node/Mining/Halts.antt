-- ===== src/Node/Mining/Halts.antt =====
-- When the search of node/src/service.rs for one block ends.
use crain.Prelude.{
  ℕ, zero, suc, ◌+◌, ◌<◌, ◌≡◌, refl, inl, inr, ◌↔◌, ◌==◌, if◌then◌else◌, List, some, arith,
}
use crain.Pow.Crypto.{Crypto}
use crain.Node.Mining.{max_nonce, working, Metadata, mine_step, first_submission}
use crain.Node.Mining.Search.{Solves, Submits, mine_step_cases, first_submission_found}

module _ (c : Crypto) where
  open c use {H256}

  -- A nonce that the thread tries solves the block: `U256::MAX` is never tried.
  abbrev pub IsSolvable : Metadata H256 → Type 0
  IsSolvable m = (n : ℕ) × (n < max_nonce) × Solves c m n

  first_submission-working :
      (rounds : ℕ) (m : Metadata H256) (nonce next : ℕ)
      → mine_step c (some m) nonce ≡ (working, next)
      → first_submission c (suc rounds) m nonce ≡ first_submission c rounds m next
  unfolding first_submission
  first_submission-working rounds m nonce next e = rw (first_submission, e, e) refl

  -- A submission in however many rounds is that of a nonce that solves the block.
  first_submission-IsSolvable :
      (rounds : ℕ) (m : Metadata H256) (nonce : ℕ) (seal : List ℕ)
      → nonce < max_nonce
      → first_submission c rounds m nonce ≡ some seal
      → IsSolvable m
  unfolding first_submission
  first_submission-IsSolvable zero m nonce seal l e = absurd (ground arith)
  first_submission-IsSolvable (suc rounds) m nonce seal l e = elim (mine_step_cases c m nonce l) [
    | inl (_, h) ↦ (nonce, l, h)
    | inr s ↦
        first_submission-IsSolvable rounds m (if nonce + 1 == max_nonce then 0 else nonce + 1) seal
          (ground arith) (rw (← first_submission-working rounds m nonce _ s) e)
  ]

  -- From a nonce below U256::MAX and with the same block in each round, the search ends, with a
  -- seal that `verify` accepts, in some number of rounds just if a nonce below U256::MAX solves the
  -- block, and that just if it ends within twice as many rounds as there are such nonces.
  pub search_ends_iff :
      (E : Type 0) (m : Metadata H256) (nonce : ℕ)
      → nonce < max_nonce
      → (((rounds : ℕ) × Submits c E rounds m nonce) ↔ IsSolvable m)
        × (IsSolvable m ↔ Submits c E (max_nonce + max_nonce) m nonce)
  search_ends_iff E m nonce l =
      let within : IsSolvable m → Submits c E (max_nonce + max_nonce) m nonce = λ (n, k, h).
        first_submission_found c E (max_nonce + max_nonce) m nonce n l k h (omega arith) in
      let solved : (rounds : ℕ) → Submits c E rounds m nonce → IsSolvable m =
        λ rounds s. first_submission-IsSolvable rounds m nonce s.0 l s.1 in
      (
        (λ (rounds, s). solved rounds s, λ s. (max_nonce + max_nonce, within s)),
        (within, solved (max_nonce + max_nonce)),
      )
