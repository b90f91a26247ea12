-- ===== src/Pow/Verify.antt =====
-- What `verify` of pow/src/lib.rs accepts.
use crain.Prelude.{
  ℕ, ◌*◌, ◌<◌, ◌≡◌, sym, ◌∙◌, ◌↔◌, ◌⊎◌, inl, inr, true, false, List, none, some, ok, arith,
  Option-cases,
}
use crain.Prelude.Machine.{u256_mod}
use crain.Pow.Crypto.{Seal, Crypto}
use crain.Pow.Algorithm.{verify_seal, verify}

module _ (c : Crypto) where
  open c use {H256, to_u256, sha3_256, encode_compute, encode_seal, decode_seal}

  -- The work of a seal: the hash of the difficulty, the block's hash and the nonce.
  abbrev pub work_of : ℕ → H256 → ℕ → H256
  work_of difficulty pre_hash nonce =
      sha3_256
        (encode_compute (record { difficulty = difficulty; pre_hash = pre_hash; nonce = nonce }))

  -- A seal for a block at a difficulty: the three demands, written out.
  pub record IsSealed (pre_hash : H256) (difficulty : ℕ) (s : Seal H256) : Type 0 where
    pub claims : s.difficulty ≡ difficulty
    pub works : s.work ≡ work_of difficulty pre_hash s.nonce
    pub meets : to_u256 s.work * difficulty < u256_mod

  module _ {E : Type 0} (pre_hash : H256) (difficulty : ℕ) where
    verify_seal-true :
        (s : Seal H256)
        → verify_seal c {E = E} pre_hash s difficulty ≡ ok true
        → IsSealed pre_hash difficulty s
    unfolding verify_seal
    verify_seal-true s h =
        ground (arith, c.h256_eq_iff (work_of difficulty pre_hash s.nonce) s.work)

    verify_seal-sealed :
        (s : Seal H256)
        → IsSealed pre_hash difficulty s
        → verify_seal c {E = E} pre_hash s difficulty ≡ ok true
    unfolding verify_seal
    verify_seal-sealed s h =
        ground (arith, c.h256_eq_iff (work_of difficulty pre_hash s.nonce) s.work)

    verify_seal_total :
        (s : Seal H256)
        → (verify_seal c {E = E} pre_hash s difficulty ≡ ok true)
          ⊎ (verify_seal c {E = E} pre_hash s difficulty ≡ ok false)
    unfolding verify_seal
    verify_seal_total s = ground arith

    verify_decoded :
        (raw : List ℕ) (s : Seal H256)
        → decode_seal raw ≡ some s
        → verify c {E = E} pre_hash raw difficulty ≡ verify_seal c pre_hash s difficulty
    unfolding verify
    verify_decoded raw s e = rw (e, verify)

    verify_undecoded :
        (raw : List ℕ)
        → decode_seal raw ≡ none
        → verify c {E = E} pre_hash raw difficulty ≡ ok false
    unfolding verify
    verify_undecoded raw e = rw (e, verify)

    -- An encoded seal is accepted if it seals the block.
    pub verify-encode :
        (s : Seal H256)
        → IsSealed pre_hash difficulty s
        → verify c {E = E} pre_hash (encode_seal s) difficulty ≡ ok true
    verify-encode s h =
        verify_decoded (encode_seal s) s (c.decode_encode s) ∙ verify_seal-sealed s h

    -- `verify` answers `true` exactly for the bytes that decode to a seal with the block's
    -- difficulty, with the hash of difficulty, pre-hash and nonce as its work, and with work that
    -- meets the difficulty. For all other bytes it answers `false`: it never fails.
    pub verify_iff :
        (raw : List ℕ)
        → ((verify c {E = E} pre_hash raw difficulty ≡ ok true)
            ↔ ((s : Seal H256) × (decode_seal raw ≡ some s) × IsSealed pre_hash difficulty s))
          × ((verify c {E = E} pre_hash raw difficulty ≡ ok true)
              ⊎ (verify c {E = E} pre_hash raw difficulty ≡ ok false))
    verify_iff raw = elim (Option-cases (decode_seal raw)) [
      | inl e ↦ (
        ((λ h. cc (verify_undecoded raw e)), (λ (s, d, sealed). cc (e))),
        inr (verify_undecoded raw e),
      )
      | inr (s, e) ↦ (
        (
          (λ h. (s, e, verify_seal-true s (sym (verify_decoded raw s e) ∙ h))),
          (λ (t, d, sealed). verify_decoded raw t d ∙ verify_seal-sealed t sealed),
        ),
        rw (verify_decoded raw s e) (verify_seal_total s),
      )
    ]
