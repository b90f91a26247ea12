-- ===== src/Node/ChainSpec.antt =====
-- node/src/chain_spec.rs: the two chains that the node knows by name, and their genesis. Keys are
-- derived from texts by sp_core, so the derivation is a parameter. Running the genesis closure
-- panics where `expect` does.
pub mod Launch
use crain.Prelude.{
  ℕ, ◌^◌, List, [], ◌∷◌, map, Option, none, some, Outcome, done, panic, ◌>>=◌, Result, ok, err,
}
use Prim.Native.String.{String, ◌++◌}

-- Key pairs from a secret text, with or without a password, and the account of a public key.
pub record Keys : Type 1 where
  pub Public : Type 0
  pub AccountId : Type 0
  -- `Pair::from_string(text, None)`, and the public key of what it returns
  pub public_from_string : String → Option Public
  pub into_account : Public → AccountId

pub data ChainType : Type 0 where
  development local : ChainType

-- `GenesisConfig`: the pallets that the configurations set; the others have their defaults.
pub record GenesisConfig (AccountId : Type 0) : Type 0 where
  pub code : List ℕ
  pub balances : List (AccountId × ℕ)
  pub initial_difficulty : ℕ

-- `ChainSpec`; the texts of the last five fields are never given.
pub record Spec (AccountId : Type 0) : Type 0 where
  pub name : String
  pub id : String
  pub chain_type : ChainType
  pub genesis : Outcome (GenesisConfig AccountId)
  pub boot_nodes : List String
  pub telemetry_endpoints : Option String
  pub protocol_id : Option String
  pub fork_id : Option String
  pub properties : Option String
  pub extensions : Option String

module _ (k : Keys) where
  open k use {Public, AccountId, public_from_string, into_account}

  unfoldable pub get_from_seed : String → Outcome Public
  get_from_seed seed = elim (public_from_string ("//" ++ seed)) [ none ↦ panic | some p ↦ done p ]

  unfoldable pub get_account_id_from_seed : String → Outcome AccountId
  get_account_id_from_seed seed = get_from_seed seed >>= λ p. done (into_account p)

  -- The accounts of a `vec!` of such calls, in order.
  unfoldable pub accounts_from_seeds : List String → Outcome (List AccountId)
  accounts_from_seeds [] = done []
  accounts_from_seeds (seed ∷ seeds) = do
    account ← get_account_id_from_seed seed
    accounts ← accounts_from_seeds seeds
    done (account ∷ accounts)

  unfoldable pub testnet_genesis : List ℕ → ℕ → List AccountId → GenesisConfig AccountId
  testnet_genesis wasm_binary initial_difficulty endowed_accounts = record {
    code = wasm_binary;
    balances = map (λ a. (a, 2 ^ 60)) endowed_accounts;
    initial_difficulty = initial_difficulty;
  }

  abbrev pub endowed_seeds : List String
  endowed_seeds =
      "Alice" ∷ "Bob" ∷ "Charlie" ∷ "Dave" ∷ "Eve" ∷ "Ferdie" ∷ "Alice//stash" ∷ "Bob//stash"
      ∷ "Charlie//stash" ∷ "Dave//stash" ∷ "Eve//stash" ∷ "Ferdie//stash" ∷ []

  -- `WASM_BINARY` is missing if the build skipped it.
  unfoldable pub development_config : Option (List ℕ) → Result (Spec AccountId) String
  development_config none = err "Development wasm not available"
  development_config (some wasm_binary) = ok (record {
    name = "Development";
    id = "dev";
    chain_type = development;
    genesis = accounts_from_seeds endowed_seeds >>= λ accounts.
        done (testnet_genesis wasm_binary 1000000 accounts);
    boot_nodes = [];
    telemetry_endpoints = none;
    protocol_id = none;
    fork_id = none;
    properties = none;
    extensions = none;
  })

  unfoldable pub local_testnet_config : Option (List ℕ) → Result (Spec AccountId) String
  local_testnet_config none = err "Development wasm not available"
  local_testnet_config (some wasm_binary) = ok (record {
    name = "Local Testnet";
    id = "local_testnet";
    chain_type = local;
    genesis = accounts_from_seeds endowed_seeds >>= λ accounts.
        done (testnet_genesis wasm_binary 1000 accounts);
    boot_nodes = [];
    telemetry_endpoints = none;
    protocol_id = none;
    fork_id = none;
    properties = none;
    extensions = none;
  })
