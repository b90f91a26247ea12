-- ===== src/Node/Benchmark/Tests.antt =====
-- Instances of the theorems on the extrinsics of the benchmark. A signature is the signer with the
-- sum of the message, and an era is its period with its first block.
use crain.Prelude.{
  ℕ, ◌+◌, ◌^◌, ◌≤◌, ◌<◌, ◌≡◌, refl, true, ◌==◌, ◌&&◌, leb, ltb, if◌then◌else◌, List, [], ◌∷◌, none,
  some, done, panic, ok, err, arith,
}
use Prim.Native.String.{String}
use crain.Runtime.{spec_version, transaction_version, block_hash_count}
use crain.Node.Benchmark.{
  checked_next_power_of_two, next_power, period_for, Substrate, Client, UncheckedExtrinsic,
  genesis_hash, create_benchmark_extrinsic, benchmark_remark, inherent_benchmark_data,
}
use crain.Node.Benchmark.Signed.{IsSigned, create_benchmark_extrinsic_lem}

abbrev sum : List ℕ → ℕ
sum [] = 0
sum (n ∷ l) = n + sum l

same : (n : ℕ) → (n == n) ≡ true
same n = ground arith

same_sum : (p n : ℕ) → ((p == p) && (n == n)) ≡ true
same_sum p n = rw (same p, same n) refl

within :
    (period start now : ℕ)
    → start ≤ now
    → now < start + period
    → (if leb start now && ltb now (start + period) then start else now) ≡ start
within period start now l h = ground arith

abbrev toy : Substrate
toy = record {
  Call = List ℕ;
  Hash = ℕ;
  Pair = ℕ;
  Public = ℕ;
  Signature = ℕ × ℕ;
  Era = ℕ × ℕ;
  public = λ p. p;
  sign = λ p random message. (p, sum message);
  verify = λ s message p. (s.0 == p) && (s.1 == sum message);
  verify-sign = λ p random message. same_sum p (sum message);
  remark = λ bytes. 0 ∷ bytes;
  mortal = λ period start. (period, start);
  birth = λ e now. if leb e.1 now && ltb now (e.1 + e.0) then e.1 else now;
  birth-mortal = λ k start now two twelve l h. within (2 ^ k) start now l h;
  using_encoded = λ call extra more. more.genesis_hash ∷ more.era_hash ∷ extra.nonce ∷ call;
  bob = 2;
}

abbrev client : Client ℕ String
client = record {
  block_hash = λ n. if n == 0 then ok (some 77) else ok none;
  best_hash = 99;
  best_number = 5000;
}

no_genesis : benchmark_remark toy [] (record client { block_hash = λ n. err "pruned" }) 0 ≡ panic
unfolding benchmark_remark create_benchmark_extrinsic genesis_hash
no_genesis = refl

periods : (period_for 2400 ≡ 2048) × (period_for 2048 ≡ 1024) × (period_for (2 ^ 31 + 1) ≡ 2)
unfolding period_for checked_next_power_of_two next_power
periods = (refl, refl, refl)

an_inherent_fails :
    inherent_benchmark_data {D = ℕ} (λ stamp. err "full") (λ e. e)
    ≡ err "creating inherent data: full"
unfolding inherent_benchmark_data
an_inherent_fails = refl

create_benchmark_extrinsic_lem_example :
    (e : UncheckedExtrinsic toy) × (create_benchmark_extrinsic toy [] client 2 (0 ∷ []) 4 ≡ done e)
    × (e.call ≡ 0 ∷ [])
    × (e.extra.nonce ≡ 4)
    × (e.extra.tip ≡ 0)
    × IsSigned toy 2
        (record {
          spec_version = spec_version;
          transaction_version = transaction_version;
          genesis_hash = 77;
          era_hash = 99;
        })
        e
    × (toy.birth e.extra.era 7047 ≡ 5000)
    × (7047 < toy.birth e.extra.era 7047 + block_hash_count)
create_benchmark_extrinsic_lem_example =
    create_benchmark_extrinsic_lem toy [] client 2 (0 ∷ []) 4 77 7047 refl (omega arith)
      (omega arith)
