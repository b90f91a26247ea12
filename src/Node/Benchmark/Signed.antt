-- ===== src/Node/Benchmark/Signed.antt =====
-- The extrinsics of node/src/command_helper.rs pass the checks that depend on the chain.
use crain.Prelude.{ℕ, ◌+◌, ◌≤◌, ◌<◌, ◌≡◌, refl, true, List, some, done, ok, arith}
use crain.Runtime.{block_hash_count, spec_version, transaction_version}
use crain.Node.Benchmark.{
  checked_next_power_of_two, next_power, period_for, Substrate, Client, UncheckedExtrinsic,
  SignedExtra, AdditionalSigned, genesis_hash, create_benchmark_extrinsic,
}

period_here : period_for block_hash_count ≡ 2048
unfolding period_for checked_next_power_of_two next_power
period_here = refl

module _ (x : Substrate) where
  open x use {
    Call, Hash, Pair, Public, Era, public, sign, verify, verify-sign, mortal, birth, birth-mortal,
    using_encoded,
  }

  -- The signature is that of the sender, for a payload with these additional data.
  abbrev pub IsSigned : Pair → AdditionalSigned Hash → UncheckedExtrinsic x → Type 0
  IsSigned sender additional e =
      (e.address ≡ public sender)
      × (verify e.signature (using_encoded e.call e.extra additional) e.address ≡ true)

  -- If the client has a block 0, then for each of the 2048 blocks from the best one on an extrinsic
  -- is made, with the call, the nonce and no tip: its era begins, as of that block, at the best one,
  -- whose hash the chain still keeps there; and with that hash, the hash of block 0 and the versions
  -- of the runtime the signature is the sender's.
  pub create_benchmark_extrinsic_lem :
      {E : Type 0} (random : List ℕ) (client : Client Hash E) (sender : Pair) (call : Call)
      (nonce : ℕ) (genesis : Hash) (now : ℕ)
      → client.block_hash 0 ≡ ok (some genesis)
      → client.best_number ≤ now
      → now < client.best_number + 2048
      → (e : UncheckedExtrinsic x) × (create_benchmark_extrinsic x random client sender call nonce
          ≡ done e)
        × (e.call ≡ call)
        × (e.extra.nonce ≡ nonce)
        × (e.extra.tip ≡ 0)
        × IsSigned sender
            (record {
              spec_version = spec_version;
              transaction_version = transaction_version;
              genesis_hash = genesis;
              era_hash = client.best_hash;
            })
            e
        × (birth e.extra.era now ≡ client.best_number)
        × (now < birth e.extra.era now + block_hash_count)
  unfolding create_benchmark_extrinsic genesis_hash
  create_benchmark_extrinsic_lem random client sender call nonce genesis now h l r =
      let extra : SignedExtra Era = record {
        era = mortal (period_for block_hash_count) client.best_number;
        nonce = nonce;
        tip = 0;
      } in
      let payload = using_encoded call extra (record {
        spec_version = spec_version;
        transaction_version = transaction_version;
        genesis_hash = genesis;
        era_hash = client.best_hash;
      }) in
      let e : UncheckedExtrinsic x = record {
        call = call;
        address = public sender;
        signature = sign sender random payload;
        extra = extra;
      } in
      (
        e,
        rw (genesis_hash, h) refl,
        refl,
        refl,
        refl,
        (refl, verify-sign sender random payload),
        begins,
        omega (arith, begins),
      )
    where
      begins :
          birth (mortal (period_for block_hash_count) client.best_number) now ≡ client.best_number
      begins =
          rw period_here
            (birth-mortal 11 client.best_number now (omega arith) (omega arith) l (omega arith))
