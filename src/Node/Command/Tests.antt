-- ===== src/Node/Command/Tests.antt =====
-- Names of chains and subcommands, and instances of the theorems.
use crain.Prelude.{◌≡◌, refl, Bool, true, false, [], ◌∷◌, some, none, ok, err}
use Prim.Native.String.{String}
use crain.Node.ChainSpec.{local_testnet_config}
use crain.Node.Steps.{spawn_telemetry, new_pool, new_import_queue, insert_key}
use crain.Node.Service.{new_partial}
use crain.Node.Service.Walk.{parts}
use crain.Node.Service.Samples.{numbered, two_keys, host, miner}
use crain.Node.Command.Samples.{texts, no_file}
use crain.Node.Command.Run.{Calls, check_block, run_subcommand, run}
use crain.Node.Command.{load_spec}

a_missing_runtime : load_spec texts no_file none "local" ≡ err "Development wasm not available"
unfolding load_spec local_testnet_config
a_missing_runtime = refl

-- Whatever the subcommand is, it makes a key.
abbrev cli : Calls numbered Bool String
cli = record {
  runtime_benchmarks = false;
  try_runtime_enabled = false;
  create_runner = ok tt;
  provide_inherent_data = λ stamp. ok tt;
  print = λ e. e;
  task_manager = ok tt;
  outcome = (insert_key "aura" "twelve words" true ∷ [], ok tt);
}

a_block_is_checked : run two_keys cli host miner (some check_block) none ≡ (
  spawn_telemetry
      ∷ new_pool (record { is_validator = true; client = 7 })
      ∷ new_import_queue (parts two_keys host miner).import_queue
      ∷ insert_key "aura" "twelve words" true
      ∷ [],
  ok tt,
)
unfolding run run_subcommand new_partial
a_block_is_checked = refl
