-- ===== src/Node/Command.antt =====
-- node/src/command.rs: the chain that a text names.
pub mod Specs
pub mod Run
pub mod Offline
pub mod Samples
mod Tests
use crain.Prelude.{ℕ, List, Option, Result, ok, err, Bool, if◌then◌else◌, ◌||◌}
use Prim.Native.String.{String}
use text.Mathlib.Text.{◌==◌}
use crain.Runtime.{RuntimeVersion, version}
use crain.Node.ChainSpec.{Keys, Spec, development_config, local_testnet_config}

-- The constant answers of `SubstrateCli`.
abbrev pub impl_name : String
impl_name = "Substrate Node"

abbrev pub support_url : String
support_url = "support.anonymous.an"

abbrev pub copyright_start_year : ℕ
copyright_start_year = 2017

abbrev pub native_runtime_version : {Spec Apis : Type 0} → Apis → Spec → RuntimeVersion Apis
native_runtime_version apis spec = version apis

module _ (k : Keys) where
  open k use {AccountId}

  -- `load_spec`. Any other text is the path of a JSON file, which sc_service reads.
  unfoldable pub load_spec :
      (String → Result (Spec AccountId) String)
      → Option (List ℕ)
      → String
      → Result (Spec AccountId) String
  load_spec from_json_file wasm_binary id =
      if id == "dev"
      then development_config k wasm_binary
      else (if id == "" || id == "local"
          then local_testnet_config k wasm_binary
          else from_json_file id)
