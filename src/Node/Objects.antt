-- ===== src/Node/Objects.antt =====
-- The objects of which node/src/service.rs builds a node. An object of Substrate is kept
-- as the arguments that it is made with, as far as they are the node's: the types of the client and
-- the backend are parameters, and the task manager, the registry of Prometheus and the executor are
-- left out. Whether there is telemetry is a Boolean.
use crain.Prelude.{ℕ, Bool, List, Option, some, Result, ok}
use Prim.Native.String.{String}
use crain.Pow.{Sha3Algorithm}
use crain.Pow as Pow
use crain.Runtime.{NativeVersion, native_version}
use crain.Node.Rpc.{FullDeps}

pub record Objects : Type 1 where
  pub Client : Type 0
  pub Backend : Type 0
  pub DenyUnsafe : Type 0

-- `InherentDataProvidersBuilder`, and what it makes of the system's time.
pub data InherentDataProvidersBuilder : Type 0 where
  inherent_data_providers_builder : InherentDataProvidersBuilder

abbrev pub create_inherent_data_providers :
    {Moment Hash E : Type 0}
    → Moment
    → InherentDataProvidersBuilder
    → Hash
    → Unit {0}
    → Result Moment E
create_inherent_data_providers from_system_time self parent extra_args = ok from_system_time

-- The native executor of the node: `dispatch` of the runtime's generated `api`, and its version.
pub record NativeExecutionDispatch (Apis Authors : Type 0) : Type 0 where
  pub dispatch : String → List ℕ → Option (List ℕ)
  pub native_version : NativeVersion Apis Authors

abbrev pub executor_dispatch :
    {Apis Authors : Type 0}
    → (String → List ℕ → Option (List ℕ))
    → Apis
    → Authors
    → NativeExecutionDispatch Apis Authors
executor_dispatch api_dispatch apis default = record {
  dispatch = λ method bytes. api_dispatch method bytes;
  native_version = native_version apis default;
}

-- `LongestChain::new(backend)`
pub record LongestChain (B : Type 0) : Type 0 where
  pub backend : B

-- `CanAuthorWithNativeVersion::new(client.executor())`
pub record CanAuthorWithNativeVersion (C : Type 0) : Type 0 where
  pub executor_of : C

module _ (o : Objects) where
  open o use {Client, Backend, DenyUnsafe}

  pub record BasicPool : Type 0 where
    pub is_validator : Bool
    pub client : Client

  pub record PowBlockImport : Type 0 where
    pub inner : Client
    pub client : Client
    pub algorithm : Sha3Algorithm Client
    pub check_inherents_after : ℕ
    pub select_chain : LongestChain Backend
    pub create_inherent_data_providers : InherentDataProvidersBuilder
    pub can_author_with : CanAuthorWithNativeVersion Client

  pub record ImportQueue : Type 0 where
    pub block_import : PowBlockImport
    pub algorithm : Sha3Algorithm Client

  pub record PartialComponents : Type 0 where
    pub client : Client
    pub backend : Backend
    pub select_chain : LongestChain Backend
    pub import_queue : ImportQueue
    pub transaction_pool : BasicPool
    pub pow_block_import : PowBlockImport
    pub telemetry : Bool

  pub record Network : Type 0 where
    pub client : Client
    pub transaction_pool : BasicPool
    pub import_queue : ImportQueue

  pub record SpawnTasksParams : Type 0 where
    pub client : Client
    pub backend : Backend
    pub transaction_pool : BasicPool
    pub rpc_extensions_builder : DenyUnsafe → FullDeps Client BasicPool DenyUnsafe
    pub network : Network
    pub telemetry : Bool

  pub record ProposerFactory : Type 0 where
    pub client : Client
    pub transaction_pool : BasicPool
    pub telemetry : Bool

  -- What the mining worker is started with. The two durations are in seconds: how long it waits for
  -- a new block, and how long it takes to build one.
  pub record MiningWorker (Public : Type 0) : Type 0 where
    pub block_import : PowBlockImport
    pub client : Client
    pub select_chain : LongestChain Backend
    pub algorithm : Sha3Algorithm Client
    pub env : ProposerFactory
    pub sync_oracle : Network
    pub justification_sync_link : Network
    pub pre_runtime : Option Public
    pub create_inherent_data_providers : InherentDataProvidersBuilder
    pub timeout : ℕ
    pub build_time : ℕ
    pub can_author_with : CanAuthorWithNativeVersion Client

module _ {o : Objects} where
  open o use {Client, Backend, DenyUnsafe}

  -- What `new_partial` puts together for a client and its backend.
  abbrev pub components : Client → Backend → (is_authority telemetry : Bool) → PartialComponents o
  components client backend is_authority telemetry =
      let algorithm : Sha3Algorithm Client = Pow.new client in
      let select_chain : LongestChain Backend = record { backend = backend } in
      let pow_block_import : PowBlockImport o = record {
        inner = client;
        client = client;
        algorithm = Pow.clone algorithm;
        check_inherents_after = 0;
        select_chain = select_chain;
        create_inherent_data_providers = inherent_data_providers_builder;
        can_author_with = record { executor_of = client };
      } in
      record {
        client = client;
        backend = backend;
        select_chain = select_chain;
        import_queue = record { block_import = pow_block_import; algorithm = Pow.clone algorithm };
        transaction_pool = record { is_validator = is_authority; client = client };
        pow_block_import = pow_block_import;
        telemetry = telemetry;
      }

  -- What `build_network` and `spawn_tasks` are given.
  abbrev pub network_of : PartialComponents o → Network o
  network_of parts = record {
    client = parts.client;
    transaction_pool = parts.transaction_pool;
    import_queue = parts.import_queue;
  }

  abbrev pub tasks_of : PartialComponents o → Network o → SpawnTasksParams o
  tasks_of parts network = record {
    client = parts.client;
    backend = parts.backend;
    transaction_pool = parts.transaction_pool;
    rpc_extensions_builder = λ deny_unsafe. record {
      client = parts.client;
      pool = parts.transaction_pool;
      deny_unsafe = deny_unsafe;
    };
    network = network;
    telemetry = parts.telemetry;
  }

  -- What the mining worker is started with, for an author.
  abbrev pub worker_of :
      {Public : Type 0}
      → PartialComponents o
      → Network o
      → Sha3Algorithm Client
      → Public
      → MiningWorker o Public
  worker_of parts network algorithm author = record {
    block_import = parts.pow_block_import;
    client = parts.client;
    select_chain = parts.select_chain;
    algorithm = algorithm;
    env = record {
      client = parts.client;
      transaction_pool = parts.transaction_pool;
      telemetry = parts.telemetry;
    };
    sync_oracle = network;
    justification_sync_link = network;
    pre_runtime = some author;
    create_inherent_data_providers = inherent_data_providers_builder;
    timeout = 10;
    build_time = 10;
    can_author_with = record { executor_of = parts.client };
  }
