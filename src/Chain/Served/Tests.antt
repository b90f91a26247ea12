-- ===== src/Chain/Served/Tests.antt =====
-- Two blocks on a small runtime, and an instance of the theorem.
use crain.Prelude.{ℕ, ◌≡◌, refl, [], ◌∷◌, Outcome, done, arith}
use crain.Prelude.Machine.{checked}
use crain.Primitives.{block_time}
use crain.Difficulty.{Storage, genesis, entry_difficulty, delta}
use crain.Difficulty.Formula.{retargeted}
use crain.Difficulty.Totality.{on_timestamp_set_lem}
use crain.Difficulty.Response.{retargeted-IsValid}
use crain.Difficulty.History.{genesis-IsValid}
use crain.Runtime.{on_timestamp, difficulty}
use crain.Runtime.Apis.{Types, Frame, runtime_apis}
use crain.Chain.History.{History, Follows}
use crain.Chain.Served.{execute_all, difficulty-execute_all}

-- A runtime whose state is the storage of the difficulty pallet and whose blocks are timestamps.
abbrev small_types : Types
small_types = record {
  State = Storage;
  Block = ℕ;
  Header = Unit;
  Extrinsic = Unit;
  AccountId = Unit;
  Hash = Unit;
  KeyTypeId = Unit;
  InherentData = Unit;
  TransactionSource = Unit;
  Versions = Unit;
  OpaqueMetadata = Unit;
  ApplyExtrinsicResult = Unit;
  CheckInherentsResult = Unit;
  TransactionValidity = Unit;
  RuntimeDispatchInfo = Unit;
  FeeDetails = Unit;
  Code = Unit;
  ContractExecResult = Unit;
  ContractInstantiateResult = Unit;
  CodeUploadResult = Unit;
  GetStorageResult = Unit;
}

abbrev small_frame : Frame small_types
small_frame = record {
  runtime_api_versions = tt;
  difficulty_storage = λ s. s;
  execute_block = λ now s. on_timestamp checked now s;
  initialize_block = λ header s. done s;
  apply_extrinsic = λ extrinsic s. done (tt, s);
  finalize_block = λ s. done (tt, s);
  validate_transaction = λ source extrinsic hash s. done (tt, s);
  offchain_worker = λ header s. done s;
  metadata = tt;
  create_extrinsics = λ inherent. [];
  check_extrinsics = λ inherent block. tt;
  account_nonce = λ account s. 0;
  query_info = λ extrinsic length s. tt;
  query_fee_details = λ extrinsic length s. tt;
  bare_call = λ origin dest value gas limit input debug s. done (tt, s);
  bare_instantiate = λ origin value gas limit code input salt debug s. done (tt, s);
  bare_upload_code = λ origin code limit s. done (tt, s);
  get_storage = λ address key s. tt;
}

abbrev two_blocks : Outcome (History × Storage)
two_blocks =
    execute_all small_types small_frame checked (λ now. now) (1000000 ∷ 1060000 ∷ []) (genesis 1000)

abbrev after_two : Storage
after_two = retargeted block_time 1060000 (retargeted block_time 1000000 (genesis 1000))

two_blocks-done :
    two_blocks
    ≡ done (
      record { difficulty = 1000; timestamp = 1000000 }
          ∷ record { difficulty = 1005; timestamp = 1060000 }
          ∷ [],
      after_two,
    )
unfolding execute_all on_timestamp difficulty genesis entry_difficulty delta
two_blocks-done =
    let first =
      on_timestamp_set_lem checked block_time 1000000 {s = genesis 1000} (omega arith) (omega arith)
        (genesis-IsValid 1000 (omega arith)) in
    let second =
      on_timestamp_set_lem checked block_time 1060000
        {s = retargeted block_time 1000000 (genesis 1000)} (omega arith) (omega arith)
        (retargeted-IsValid block_time 1000000 (omega arith)
          (genesis-IsValid 1000 (omega arith))) in
    rw (first, second)

difficulty-execute_all_example :
    Follows block_time 1000 [] (
      record { difficulty = 1000; timestamp = 1000000 }
      ∷ record { difficulty = 1005; timestamp = 1060000 }
      ∷ [])
    × ((runtime_apis small_types small_frame).difficulty after_two ≡ 1005)
difficulty-execute_all_example =
    difficulty-execute_all small_types small_frame checked (λ now. now)
      (record { sets = λ block s s' e. e }) 1000 (1000000 ∷ 1060000 ∷ []) (genesis 1000) after_two _
      (omega arith) (omega arith) refl (omega arith, (omega arith, tt)) two_blocks-done
      (omega arith, tt)
