-- ===== src/Runtime/Apis.antt =====
-- `impl_runtime_apis!` of runtime/src/lib.rs: what answers each call of the runtime's APIs. The
-- functions of FRAME's executive and of the pallets, and their types, are parameters; what they
-- read or change is a state, of which the storage of the difficulty pallet is a part.
use crain.Prelude.{ℕ, Bool, List, [], Option, none, Outcome}
use crain.Difficulty.{Storage}
use crain.Runtime.{RuntimeVersion, version, contracts_debug_output, difficulty}

abbrev pub Bytes : Type 0
Bytes = List ℕ

pub record Types : Type 1 where
  pub State : Type 0
  pub Block : Type 0
  pub Header : Type 0
  pub Extrinsic : Type 0
  pub AccountId : Type 0
  pub Hash : Type 0
  pub KeyTypeId : Type 0
  pub InherentData : Type 0
  pub TransactionSource : Type 0
  pub Versions : Type 0
  pub OpaqueMetadata : Type 0
  pub ApplyExtrinsicResult : Type 0
  pub CheckInherentsResult : Type 0
  pub TransactionValidity : Type 0
  pub RuntimeDispatchInfo : Type 0
  pub FeeDetails : Type 0
  pub Code : Type 0
  pub ContractExecResult : Type 0
  pub ContractInstantiateResult : Type 0
  pub CodeUploadResult : Type 0
  pub GetStorageResult : Type 0

module _ (t : Types) where
  open t use {
    State, Block, Header, Extrinsic, AccountId, Hash, KeyTypeId, InherentData, TransactionSource,
    Versions, OpaqueMetadata, ApplyExtrinsicResult, CheckInherentsResult, TransactionValidity,
    RuntimeDispatchInfo, FeeDetails, Code, ContractExecResult, ContractInstantiateResult,
    CodeUploadResult, GetStorageResult,
  }

  -- The functions that the calls are passed on to.
  pub record Frame : Type 0 where
    -- `RUNTIME_API_VERSIONS`, which the macro makes
    pub runtime_api_versions : Versions
    -- the storage of the difficulty pallet
    pub difficulty_storage : State → Storage
    -- `Executive`
    pub execute_block : Block → State → Outcome State
    pub initialize_block : Header → State → Outcome State
    pub apply_extrinsic : Extrinsic → State → Outcome (ApplyExtrinsicResult × State)
    pub finalize_block : State → Outcome (Header × State)
    pub validate_transaction :
        TransactionSource → Extrinsic → Hash → State → Outcome (TransactionValidity × State)
    pub offchain_worker : Header → State → Outcome State
    -- `Runtime::metadata`, and the calls of the inherent data
    pub metadata : OpaqueMetadata
    pub create_extrinsics : InherentData → List Extrinsic
    pub check_extrinsics : InherentData → Block → CheckInherentsResult
    -- `System`, `TransactionPayment` and `Contracts`
    pub account_nonce : AccountId → State → ℕ
    pub query_info : Extrinsic → ℕ → State → RuntimeDispatchInfo
    pub query_fee_details : Extrinsic → ℕ → State → FeeDetails
    pub bare_call :
        AccountId
        → AccountId
        → ℕ
        → ℕ
        → Option ℕ
        → Bytes
        → Bool
        → State
        → Outcome (ContractExecResult × State)
    pub bare_instantiate :
        AccountId
        → ℕ
        → ℕ
        → Option ℕ
        → Code
        → Bytes
        → Bytes
        → Bool
        → State
        → Outcome (ContractInstantiateResult × State)
    pub bare_upload_code : AccountId → Bytes → Option ℕ → State → Outcome (CodeUploadResult × State)
    pub get_storage : AccountId → Bytes → State → GetStorageResult

  -- The APIs, in the order of the file.
  pub record RuntimeApis : Type 0 where
    -- `Core`
    pub version : RuntimeVersion Versions
    pub execute_block : Block → State → Outcome State
    pub initialize_block : Header → State → Outcome State
    -- `Metadata`
    pub metadata : OpaqueMetadata
    -- `BlockBuilder`
    pub apply_extrinsic : Extrinsic → State → Outcome (ApplyExtrinsicResult × State)
    pub finalize_block : State → Outcome (Header × State)
    pub inherent_extrinsics : InherentData → List Extrinsic
    pub check_inherents : Block → InherentData → CheckInherentsResult
    -- `TaggedTransactionQueue`
    pub validate_transaction :
        TransactionSource → Extrinsic → Hash → State → Outcome (TransactionValidity × State)
    -- `OffchainWorkerApi`
    pub offchain_worker : Header → State → Outcome State
    -- `SessionKeys`
    pub generate_session_keys : Option Bytes → Bytes
    pub decode_session_keys : Bytes → Option (List (Bytes × KeyTypeId))
    -- `DifficultyApi`
    pub difficulty : State → ℕ
    -- `AccountNonceApi`
    pub account_nonce : AccountId → State → ℕ
    -- `TransactionPaymentApi`
    pub query_info : Extrinsic → ℕ → State → RuntimeDispatchInfo
    pub query_fee_details : Extrinsic → ℕ → State → FeeDetails
    -- `ContractsApi`
    pub call :
        AccountId
        → AccountId
        → ℕ
        → ℕ
        → Option ℕ
        → Bytes
        → State
        → Outcome (ContractExecResult × State)
    pub instantiate :
        AccountId
        → ℕ
        → ℕ
        → Option ℕ
        → Code
        → Bytes
        → Bytes
        → State
        → Outcome (ContractInstantiateResult × State)
    pub upload_code : AccountId → Bytes → Option ℕ → State → Outcome (CodeUploadResult × State)
    pub get_storage : AccountId → Bytes → State → GetStorageResult

  abbrev pub runtime_apis : Frame → RuntimeApis
  runtime_apis f = record {
    version = version f.runtime_api_versions;
    execute_block = f.execute_block;
    initialize_block = f.initialize_block;
    metadata = f.metadata;
    apply_extrinsic = f.apply_extrinsic;
    finalize_block = f.finalize_block;
    inherent_extrinsics = λ inherent. f.create_extrinsics inherent;
    check_inherents = λ block inherent. f.check_extrinsics inherent block;
    validate_transaction = f.validate_transaction;
    offchain_worker = f.offchain_worker;
    generate_session_keys = λ seed. [];
    decode_session_keys = λ encoded. none;
    difficulty = λ s. difficulty (f.difficulty_storage s);
    account_nonce = f.account_nonce;
    query_info = f.query_info;
    query_fee_details = f.query_fee_details;
    call = λ origin dest value gas_limit storage_deposit_limit input s.
        f.bare_call origin dest value gas_limit storage_deposit_limit input contracts_debug_output
          s;
    instantiate = λ origin value gas_limit storage_deposit_limit code input salt s.
        f.bare_instantiate origin value gas_limit storage_deposit_limit code input salt
          contracts_debug_output s;
    upload_code = λ origin code storage_deposit_limit s.
        f.bare_upload_code origin code storage_deposit_limit s;
    get_storage = λ address key s. f.get_storage address key s;
  }
