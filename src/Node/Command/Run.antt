-- ===== src/Node/Command/Run.antt =====
-- `run` of node/src/command.rs: which of the node's components a subcommand of node/src/cli.rs
-- builds before it runs. What a subcommand then does is sc_cli's, so its effects, which may make
-- keys as those of `key` do, and its result are parameters.
use crain.Prelude.{ℕ, Bool, if◌then◌else◌, Option, none, some, Result, err}
use Prim.Native.String.{String}
use crain.Node.Benchmark.{inherent_benchmark_data}
use crain.Node.Objects.{Objects}
use crain.Node.Steps.{Run, ◌>>=◌, lift}
use crain.Node.Service.{or_else, Keys, Host, Configuration, ServiceError, new_partial, new_full}

pub data BenchmarkCmd : Type 0 where
  pallet block storage overhead : BenchmarkCmd

pub data Subcommand : Type 0 where
  key build_spec check_block export_blocks export_state import_blocks purge_chain revert :
      Subcommand
  benchmark : BenchmarkCmd → Subcommand
  try_runtime : Subcommand

-- `sc_cli::Error`, as far as the code makes one: a text, an error of the service, one of Substrate.
pub data Error (E : Type 0) : Type 0 where
  input : String → Error E
  service : ServiceError E → Error E
  outside : E → Error E

-- The features of the build, and what the calls of one run report.
pub record Calls (o : Objects) (P E : Type 0) : Type 0 where
  pub runtime_benchmarks : Bool
  pub try_runtime_enabled : Bool
  pub create_runner : Result (Unit {0}) E
  -- `provide_inherent_data` of a timestamp, and how `{:?}` prints its error
  pub provide_inherent_data : ℕ → Result (Unit {0}) E
  pub print : E → String
  -- `TaskManager::new`, for `TryRuntime`
  pub task_manager : Result (Unit {0}) E
  -- `cmd.run` of the subcommand
  pub outcome : Run o P (Unit {0}) E

module _ {o : Objects} (k : Keys) {E : Type 0} (c : Calls o k.Public E) (h : Host o k.Public E)
    (config : Configuration) where
  abbrev pub Ran : Type 0
  Ran = Run o k.Public (Unit {0}) (Error E)

  abbrev pub from_outside : Result (Unit {0}) E → Ran
  from_outside r = lift (or_else r outside)

  abbrev pub from_service :
      {A : Type 0} → Run o k.Public A (ServiceError E) → Run o k.Public A (Error E)
  from_service (es, r) = (es, or_else r service)

  abbrev pub runner : Ran
  runner = from_outside c.create_runner

  abbrev pub cmd_run : Ran
  cmd_run = (c.outcome.0, or_else c.outcome.1 outside)

  -- A subcommand that needs the client.
  abbrev pub with_partial : Ran → Ran
  with_partial rest = from_service (new_partial k h config) >>= λ _. rest

  -- `inherent_benchmark_data()?`
  abbrev pub inherent_data : Ran
  inherent_data = lift (or_else (inherent_benchmark_data c.provide_inherent_data c.print) input)

  unfoldable pub run_benchmark : BenchmarkCmd → Ran
  run_benchmark pallet =
      if c.runtime_benchmarks
      then cmd_run
      else lift (
          err (
            input
              "Runtime benchmarking wasn't enabled when building the node. You can enable it with `--features runtime-benchmarks`."))
  run_benchmark block = with_partial cmd_run
  run_benchmark storage = with_partial cmd_run
  run_benchmark overhead = with_partial (inherent_data >>= λ _. cmd_run)

  unfoldable pub run_subcommand : Subcommand → Ran
  run_subcommand key = cmd_run
  run_subcommand build_spec = runner >>= λ _. cmd_run
  run_subcommand check_block = runner >>= λ _. with_partial cmd_run
  run_subcommand export_blocks = runner >>= λ _. with_partial cmd_run
  run_subcommand export_state = runner >>= λ _. with_partial cmd_run
  run_subcommand import_blocks = runner >>= λ _. with_partial cmd_run
  run_subcommand purge_chain = runner >>= λ _. cmd_run
  run_subcommand revert = runner >>= λ _. with_partial cmd_run
  run_subcommand (benchmark cmd) = runner >>= λ _. run_benchmark cmd
  run_subcommand try_runtime =
      if c.try_runtime_enabled
      then (runner >>= λ _. from_outside c.task_manager >>= λ _. cmd_run)
      else lift (
          err (
            input
              "TryRuntime wasn't enabled when building the node. You can enable it with `--features try-runtime`."))

  unfoldable pub run : Option Subcommand → Option String → Ran
  run (some cmd) author = run_subcommand cmd
  run none author = runner >>= λ _. from_service (new_full k h config author)
