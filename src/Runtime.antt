-- ===== src/Runtime.antt =====
-- runtime/src/lib.rs: what the runtime computes for its configuration, which is the deposit for
-- contract storage, the weights of a block, and the depth of the queue of lazy deletions. The
-- weight of a second of computation, the rounding of `Perbill` and the weights of the contracts
-- pallet come from Substrate, so they are parameters.
pub mod Deposit
pub mod Weights
pub mod Apis
mod Tests
use crain.Prelude.{ℕ, Bool, true, ◌≤◌, ◌*◌, ◌%◌, Option, none, some, Outcome, done, ◌>>=◌}
use Prim.Native.String.{String}
use crain.Prelude.Machine.{Build, add, sub, mul, div, u32_mod, u64_mod, u128_mod}
use crain.Primitives.{block_time}
use crain.Difficulty.{Storage, on_timestamp_set}

abbrev pub unit : ℕ
unit = 1000000000000

abbrev pub milliunit : ℕ
milliunit = 1000000000

-- What an account must hold to exist.
abbrev pub existential_deposit : ℕ
existential_deposit = 500

-- `VERSION`, over the list of runtime APIs, which is generated.
pub record RuntimeVersion (Apis : Type 0) : Type 0 where
  pub spec_name : String
  pub impl_name : String
  pub authoring_version : ℕ
  pub spec_version : ℕ
  pub impl_version : ℕ
  pub apis : Apis
  pub transaction_version : ℕ
  pub state_version : ℕ

abbrev pub spec_version : ℕ
spec_version = 100

abbrev pub transaction_version : ℕ
transaction_version = 1

abbrev pub version : {Apis : Type 0} → Apis → RuntimeVersion Apis
version apis = record {
  spec_name = "node-template";
  impl_name = "node-template";
  authoring_version = 1;
  spec_version = spec_version;
  impl_version = 1;
  apis = apis;
  transaction_version = transaction_version;
  state_version = 1;
}

-- What the node knows of its native runtime; the second field has the default of its type.
pub record NativeVersion (Apis Authors : Type 0) : Type 0 where
  pub runtime_version : RuntimeVersion Apis
  pub can_author_with : Authors

abbrev pub native_version : {Apis Authors : Type 0} → Apis → Authors → NativeVersion Apis Authors
native_version apis default = record { runtime_version = version apis; can_author_with = default }

-- How many block hashes the chain keeps.
abbrev pub block_hash_count : ℕ
block_hash_count = 2400

-- Whether the contracts pallet prints what a contract debugs.
abbrev pub contracts_debug_output : Bool
contracts_debug_output = true

-- A `Balance` is a u128, to which the u32 arguments are cast.
unfoldable pub deposit : Build → ℕ → ℕ → Outcome ℕ
deposit b items bytes = do
  for_items ← mul u128_mod b items unit
  fives ← mul u128_mod b 5 milliunit
  per_byte ← div fives 100
  for_bytes ← mul u128_mod b bytes per_byte
  total ← add u128_mod b for_items for_bytes
  div total 10

unfoldable pub deposit_per_item : Build → Outcome ℕ
deposit_per_item b = deposit b 1 0

unfoldable pub deposit_per_byte : Build → Outcome ℕ
deposit_per_byte b = deposit b 0 1

-- What `frame_support`, `frame_system` and `sp_runtime` give: the weights of a second, of an empty
-- block and of an empty extrinsic, and the product of a percentage as a `Perbill` with a weight,
-- which never exceeds the weight.
pub record Substrate : Type 0 where
  pub weight_per_second : ℕ
  pub block_execution_weight : ℕ
  pub extrinsic_base_weight : ℕ
  pub of_percent : ℕ → ℕ → ℕ
  pub of_percent_le : (percent weight : ℕ) → percent ≤ 100 → of_percent percent weight ≤ weight

-- What `RuntimeBlockWeights` sets for a class of dispatches; none is left to the builder.
pub record ClassWeights : Type 0 where
  pub base_extrinsic : ℕ
  pub max_total : Option ℕ
  pub reserved : Option ℕ

-- `avg_block_initialization` is a percentage.
pub record BlockWeights : Type 0 where
  pub base_block : ℕ
  pub normal : ClassWeights
  pub operational : ClassWeights
  pub mandatory : ClassWeights
  pub avg_block_initialization : ℕ

abbrev pub normal_dispatch_ratio : ℕ
normal_dispatch_ratio = 75

abbrev pub average_on_initialize_ratio : ℕ
average_on_initialize_ratio = 10

unfoldable pub maximum_block_weight : Build → Substrate → Outcome ℕ
maximum_block_weight b e = mul u64_mod b 2 e.weight_per_second

-- What `RuntimeBlockWeights` gives to the builder, which may still refuse it.
unfoldable pub block_weights : Build → Substrate → Outcome BlockWeights
block_weights b e = do
  maximum ← maximum_block_weight b e
  reserved ← sub u64_mod b maximum (e.of_percent normal_dispatch_ratio maximum)
  done (record {
    base_block = e.block_execution_weight;
    normal = record {
      base_extrinsic = e.extrinsic_base_weight;
      max_total = some (e.of_percent normal_dispatch_ratio maximum);
      reserved = none;
    };
    operational = record {
      base_extrinsic = e.extrinsic_base_weight;
      max_total = some maximum;
      reserved = some reserved;
    };
    mandatory = record {
      base_extrinsic = e.extrinsic_base_weight;
      max_total = none;
      reserved = none;
    };
    avg_block_initialization = average_on_initialize_ratio;
  })

-- `max_block` is what the builder of the weights makes the limit of a block.
unfoldable pub deletion_weight_limit : ℕ → BlockWeights → ℕ
deletion_weight_limit max_block w = limit w.normal.max_total
  where
    limit : Option ℕ → ℕ
    limit none = max_block
    limit (some m) = m

-- The last cast keeps the low 32 bits. `one` and `zero_items` are the pallet's weights of
-- `on_initialize` for a queue of one item and of none.
unfoldable pub deletion_queue_depth : Build → (weight_limit one zero_items : ℕ) → Outcome ℕ
deletion_queue_depth b weight_limit one zero_items = do
  per_item ← sub u64_mod b one zero_items
  items ← div weight_limit per_item
  depth ← div items 5
  done (depth % u32_mod)

-- `TargetBlockTime` of the difficulty pallet, and `MinimumPeriod` of the timestamp pallet.
abbrev pub target_block_time : ℕ
target_block_time = block_time

abbrev pub minimum_period : ℕ
minimum_period = 1000

-- `OnTimestampSet = Difficulty`: what the timestamp pallet calls when it sets a block's timestamp.
unfoldable pub on_timestamp : Build → ℕ → Storage → Outcome Storage
on_timestamp b now s = on_timestamp_set b target_block_time now s

-- The runtime API that the node's mining asks for the difficulty.
unfoldable pub difficulty : Storage → ℕ
difficulty s = s.current_difficulty
