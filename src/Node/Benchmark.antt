-- ===== src/Node/Benchmark.antt =====
-- node/src/command_helper.rs: the extrinsics and the inherent data of the `benchmark overhead`
-- command. Signatures, eras, the codec of a payload and the calls of the runtime are Substrate's,
-- so they are parameters.
pub mod Period
pub mod Signed
mod Tests
use Prim.Native.String.{String, ◌++◌}
use crain.Prelude.{
  ℕ, zero, suc, ◌+◌, ◌*◌, ◌/◌, ◌^◌, ◌≤◌, ◌<◌, ◌≡◌, Bool, true, leb, if◌then◌else◌, List, [], Option,
  none, some, Outcome, done, panic, ◌>>=◌, Result, ok, err,
}
use crain.Runtime.{block_hash_count, spec_version, transaction_version}

-- The smallest power of two that is no less, of those from `power` on in so many rounds.
unfoldable pub next_power : ℕ → ℕ → ℕ → Option ℕ
next_power zero power n = none
next_power (suc rounds) power n =
    let rest = next_power rounds (2 * power) n in if leb n power then some power else rest

-- `checked_next_power_of_two` on a u32, whose powers of two are 32.
unfoldable pub checked_next_power_of_two : ℕ → Option ℕ
checked_next_power_of_two n = next_power 32 1 n

-- The period of an extrinsic's era, for a `BlockHashCount`.
unfoldable pub period_for : ℕ → ℕ
period_for count = elim (checked_next_power_of_two count) [ some c ↦ c / 2 | none ↦ 2 ]

-- `SignedExtra` of runtime/src/lib.rs: the extensions that hold something, which are `CheckEra`,
-- `CheckNonce` and `ChargeTransactionPayment`.
pub record SignedExtra (Era : Type 0) : Type 0 where
  pub era : Era
  pub nonce : ℕ
  pub tip : ℕ

-- What the extensions add to the payload: those of `CheckSpecVersion`, `CheckTxVersion`,
-- `CheckGenesis` and `CheckEra`; the other four add nothing.
pub record AdditionalSigned (Hash : Type 0) : Type 0 where
  pub spec_version : ℕ
  pub transaction_version : ℕ
  pub genesis_hash : Hash
  pub era_hash : Hash

-- What is taken from Substrate. A signature needs random bytes, which are an argument. An era of a
-- period of 4 to 4096 blocks, a power of two, begins at the block that it is made for.
pub record Substrate : Type 1 where
  pub Call : Type 0
  pub Hash : Type 0
  pub Pair : Type 0
  pub Public : Type 0
  pub Signature : Type 0
  pub Era : Type 0
  pub public : Pair → Public
  pub sign : Pair → List ℕ → List ℕ → Signature
  pub verify : Signature → List ℕ → Public → Bool
  pub verify-sign :
      (p : Pair) (random message : List ℕ)
      → verify (sign p random message) message (public p) ≡ true
  -- `SystemCall::remark`, as a call of the runtime
  pub remark : List ℕ → Call
  -- `Era::mortal`, and `birth` of an era at a block
  pub mortal : ℕ → ℕ → Era
  pub birth : Era → ℕ → ℕ
  pub birth-mortal :
      (k start now : ℕ)
      → 2 ≤ k
      → k ≤ 12
      → start ≤ now
      → now < start + 2 ^ k
      → birth (mortal (2 ^ k) start) now ≡ start
  -- `using_encoded` of a signed payload
  pub using_encoded : Call → SignedExtra Era → AdditionalSigned Hash → List ℕ
  -- `Sr25519Keyring::Bob.pair()`
  pub bob : Pair

-- What the code reads of the client, `E` being what a failure to read is.
pub record Client (Hash E : Type 0) : Type 0 where
  pub block_hash : ℕ → Result (Option Hash) E
  pub best_hash : Hash
  pub best_number : ℕ

module _ (x : Substrate) where
  open x use {
    Call, Hash, Pair, Public, Signature, Era, public, sign, remark, mortal, using_encoded, bob,
  }

  -- A signed `UncheckedExtrinsic`.
  pub record UncheckedExtrinsic : Type 0 where
    pub call : Call
    pub address : Public
    pub signature : Signature
    pub extra : SignedExtra Era

  -- `client.block_hash(0).ok().flatten().expect(..)`
  unfoldable pub genesis_hash : {E : Type 0} → Client Hash E → Outcome Hash
  genesis_hash client = elim (client.block_hash 0) [
    | ok (some hash) ↦ done hash
    | ok none ↦ panic
    | err e ↦ panic
  ]

  unfoldable pub create_benchmark_extrinsic :
      {E : Type 0} → List ℕ → Client Hash E → Pair → Call → ℕ → Outcome UncheckedExtrinsic
  create_benchmark_extrinsic random client sender call nonce = do
    genesis ← genesis_hash client
    let extra : SignedExtra Era = record {
      era = mortal (period_for block_hash_count) client.best_number;
      nonce = nonce;
      tip = 0;
    }
    let raw_payload = using_encoded call extra (record {
      spec_version = spec_version;
      transaction_version = transaction_version;
      genesis_hash = genesis;
      era_hash = client.best_hash;
    })
    done (record {
      call = call;
      address = public sender;
      signature = sign sender random raw_payload;
      extra = extra;
    })

  -- `BenchmarkExtrinsicBuilder::remark`
  unfoldable pub benchmark_remark :
      {E : Type 0} → List ℕ → Client Hash E → ℕ → Outcome UncheckedExtrinsic
  benchmark_remark random client nonce =
      create_benchmark_extrinsic random client bob (remark []) nonce

-- The inherent data: what `provide_inherent_data` makes of a timestamp, or the text of its error,
-- which `print` prints.
unfoldable pub inherent_benchmark_data :
    {D E : Type 0} → (ℕ → Result D E) → (E → String) → Result D String
inherent_benchmark_data provide print = elim (provide 0) [
  | ok inherent_data ↦ ok inherent_data
  | err e ↦ err ("creating inherent data: " ++ print e)
]
