-- ===== src/Pow/Tests.antt =====
-- A concrete instance of `Crypto`, runs of the algorithm, and instances of its theorems.
use crain.Prelude.{
  ℕ, ◌%◌, ◌^◌, ◌<◌, ◌≡◌, refl, ◌↔◌, ◌⊎◌, inl, inr, true, false, ◌==◌, ==_iff, if◌then◌else◌, List,
  [], ◌∷◌, Option, none, some, ok, arith,
}
use crain.Prelude.Machine.{u256_mod}
use crain.Pow.Crypto.{Seal, Crypto}
use crain.Pow.Algorithm.{verify, verify_seal}
use crain.Pow.Verify.{IsSealed, verify_iff}
use crain.Pow.Tie.{holds, IsIn, break_tie_converges}

-- Hashes are numbers; the nonce 3 gives the work 5, and every other nonce a work near the end.
abbrev pub toy_sha3 : List ℕ → ℕ
toy_sha3 (d ∷ p ∷ n ∷ []) = if n == 3 then 5 else 2 ^ 255
toy_sha3 _ = 0

abbrev pub toy_decode : List ℕ → Option (Seal ℕ)
toy_decode (d ∷ w ∷ n ∷ []) = some (record { difficulty = d; work = w; nonce = n })
toy_decode _ = none

pub toy_lt : (h : ℕ) → h % u256_mod < u256_mod
toy_lt h = omega arith

abbrev pub toy : Crypto
toy = record {
  H256 = ℕ;
  to_u256 = λ h. h % u256_mod;
  to_u256_lt = toy_lt;
  h256_eq = ◌==◌;
  h256_eq_iff = ==_iff;
  sha3_256 = toy_sha3;
  encode_compute = λ c. c.difficulty ∷ c.pre_hash ∷ c.nonce ∷ [];
  encode_seal = λ s. s.difficulty ∷ s.work ∷ s.nonce ∷ [];
  decode_seal = toy_decode;
  decode_encode = λ s. refl;
  blake2_256 = λ bytes. bytes;
}

-- A seal for the block 7 at difficulty 10, and one that claims another difficulty.
accepts : verify toy {E = ℕ} 7 (10 ∷ 5 ∷ 3 ∷ []) 10 ≡ ok true
unfolding verify verify_seal
accepts = refl

refuses : verify toy {E = ℕ} 7 (9 ∷ 5 ∷ 3 ∷ []) 10 ≡ ok false
unfolding verify verify_seal
refuses = refl

verify_iff_example :
    ((verify toy {E = ℕ} 7 (10 ∷ 5 ∷ 3 ∷ []) 10 ≡ ok true)
      ↔ ((s : Seal ℕ) × (toy_decode (10 ∷ 5 ∷ 3 ∷ []) ≡ some s) × IsSealed toy 7 10 s))
    × ((verify toy {E = ℕ} 7 (10 ∷ 5 ∷ 3 ∷ []) 10 ≡ ok true)
        ⊎ (verify toy {E = ℕ} 7 (10 ∷ 5 ∷ 3 ∷ []) 10 ≡ ok false))
verify_iff_example = verify_iff toy 7 10 (10 ∷ 5 ∷ 3 ∷ [])

abbrev low : List ℕ
low = 1 ∷ []

abbrev high : List ℕ
high = 2 ∷ []

swapped : (a b : List ℕ) (s : List ℕ) → IsIn s (a ∷ b ∷ []) → IsIn s (b ∷ a ∷ [])
swapped a b s (inl e) = inr (inl e)
swapped a b s (inr (inl e)) = inl e
swapped a b s (inr (inr e)) = absurd e

break_tie_converges_example : holds toy low (high ∷ []) ≡ holds toy high (low ∷ [])
break_tie_converges_example =
    break_tie_converges toy low high (high ∷ []) (low ∷ []) (swapped low high) (swapped high low)
