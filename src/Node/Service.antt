-- ===== src/Node/Service.antt =====
-- node/src/service.rs: the author of the mined blocks, and how a node starts. What Substrate does
-- is a parameter: whether each of its steps succeeds, the key formats and the keystore. What a
-- function does besides its result is the list of its effects, in order, with the objects of
-- Node.Objects.
pub mod Author
pub mod Effects
pub mod Walk
pub mod Errors
pub mod Mines
pub mod Start
pub mod Samples
mod Tests
use crain.Prelude.{
  ◌≡◌, Bool, true, false, not, if◌then◌else◌, List, [], ◌∷◌, ◌++◌, Option, none, some, Result, ok,
  err,
}
use Prim.Native.String
use Prim.Native.String.{String, slice, len}
use text.Mathlib.Text.{starts_with}
use crain.Pow as Pow
use crain.Node.Objects.{
  Objects, PartialComponents, Network, components, network_of, tasks_of, worker_of,
}
use crain.Node.Steps.{
  Effect, info, warn, insert_key, spawn_telemetry, new_pool, new_import_queue, build_network,
  build_offchain_workers, spawn_tasks, start_mining_worker, spawn_authoring, spawn_mining,
  start_network, Run, ◌>>=◌, ◌>>◌, act, lift, when,
}

-- The formats of keys: 32 bytes in hexadecimal digits, or an SS58 address with the version of its
-- kind. What is printed as an address is read back, and base58 has no digit 0.
pub record Keys : Type 1 where
  pub Public : Type 0
  pub Version : Type 0
  pub same : Version → Version → Bool
  pub bare_sr25519_account : Version
  pub from_hex : String → Option Public
  pub from_ss58check_with_version : String → Option (Public × Version)
  pub to_ss58check_with_version : Public → Version → String
  pub same_refl : (v : Version) → same v v ≡ true
  pub read_back :
      (p : Public) (v : Version)
      → from_ss58check_with_version (to_ss58check_with_version p v) ≡ some (p, v)
  pub no_zero :
      (p : Public) (v : Version) → starts_with (to_ss58check_with_version p v) "0x" ≡ false

-- The kind of key, `app::ID` of pow/src/lib.rs.
abbrev pub id : String
id = "crn1"

-- What the parts outside report during one start, besides the keys.
pub record Host (o : Objects) (Public E : Type 0) : Type 0 where
  -- what `new_full_parts` makes if it succeeds
  pub client : o.Client
  pub backend : o.Backend
  -- `generate_with_phrase(None)`
  pub pair_public : Public
  pub phrase : String
  -- `insert_unknown`, with its error as it is printed
  pub inserted : Result (Unit {0}) String
  pub telemetry_worker : Result (Unit {0}) E
  pub full_parts : Result (Unit {0}) E
  pub import_queue : Result (Unit {0}) E
  pub network : Result (Unit {0}) E
  pub tasks : Result (Unit {0}) E

pub data ServiceError (E : Type 0) : Type 0 where
  other : String → ServiceError E
  substrate : E → ServiceError E

-- What the code reads of the `Configuration`. The path is as it is printed.
pub record Configuration : Type 0 where
  pub keystore_remote : Bool
  pub telemetry_endpoints : Option (List String)
  pub is_authority : Bool
  pub offchain_worker : Bool
  pub keystore_path : Option String

abbrev pub or_else : {A E F : Type 0} → Result A E → (E → F) → Result A F
or_else (ok a) f = ok a
or_else (err e) f = err (f e)

abbrev pub ok_or : {A E : Type 0} → Option A → E → Result A E
ok_or none e = err e
ok_or (some a) e = ok a

-- `?` makes a text a `ServiceError`.
abbrev pub as_service :
    {o : Objects} {P A E : Type 0} → Run o P A String → Run o P A (ServiceError E)
as_service (es, r) = (es, or_else r other)

-- `telemetry_endpoints.filter(|x| !x.is_empty())` holds something.
abbrev pub has_telemetry : Option (List String) → Bool
has_telemetry none = false
has_telemetry (some []) = false
has_telemetry (some (x ∷ xs)) = true

module _ (k : Keys) where
  open k use {
    Public, same, bare_sr25519_account, from_hex, from_ss58check_with_version,
    to_ss58check_with_version,
  }

  -- An author that was given.
  unfoldable pub decode_given : String → Result Public String
  decode_given author =
      if starts_with author "0x"
      then ok_or (from_hex (slice author 2 (len author))) "Invalid author account"
      else elim (from_ss58check_with_version author) [
        | none ↦ err "Invalid author address"
        | some (address, version) ↦
            if not (same version bare_sr25519_account)
            then err "Invalid author version"
            else ok address
      ]

  -- The hint at the end.
  abbrev pub where_to_look : {o : Objects} → Option String → Effect o Public
  where_to_look (some path) = info (
      String.◌++◌ "You can go to " (String.◌++◌ path " to find the seed phrase of the mining key."))
  where_to_look none =
      warn
        "Keystore is not local. This means that your mining key will be lost when exiting the program. This should only happen if you are in dev mode."

  -- No author was given: a new key.
  unfoldable pub generate_author :
      {o : Objects} {E : Type 0} → Host o Public E → Option String → Run o Public Public String
  generate_author h keystore_path = do
    act (info "The node is configured for mining, but no author key is provided.")
    act (insert_key id h.phrase h.pair_public)
    lift (or_else h.inserted (λ e. String.◌++◌ "Registering mining key failed: " e))
    act (
        info (
          String.◌++◌ "Generated a mining key with address: "
            (to_ss58check_with_version h.pair_public bare_sr25519_account)))
    act (where_to_look keystore_path)
    lift (ok h.pair_public)

  unfoldable pub decode_author :
      {o : Objects} {E : Type 0}
      → Option String
      → Host o Public E
      → Option String
      → Run o Public Public String
  decode_author (some author) h keystore_path = lift (decode_given author)
  decode_author none h keystore_path = generate_author h keystore_path

  module _ {o : Objects} {E : Type 0} where
    -- The components, of which only the telemetry may be missing.
    unfoldable pub new_partial :
        Host o Public E → Configuration → Run o Public (PartialComponents o) (ServiceError E)
    new_partial h config =
        if config.keystore_remote
        then lift (err (other "Remote Keystores are not supported."))
        else do
          when (has_telemetry config.telemetry_endpoints)
              (lift (or_else h.telemetry_worker substrate))
          lift (or_else h.full_parts substrate)
          when (has_telemetry config.telemetry_endpoints) (act spawn_telemetry)
          let parts =
              components h.client h.backend config.is_authority
                (has_telemetry config.telemetry_endpoints)
          act (new_pool parts.transaction_pool)
          lift (or_else h.import_queue substrate)
          act (new_import_queue parts.import_queue)
          lift (ok parts)

    -- Mining, in the node of an authority.
    unfoldable pub start_authoring :
        Host o Public E
        → Configuration
        → Option String
        → PartialComponents o
        → Network o
        → Run o Public (Unit {0}) (ServiceError E)
    start_authoring h config author parts network = do
      let algorithm = Pow.new parts.client
      key ← as_service (decode_author author h config.keystore_path)
      act (start_mining_worker (worker_of parts network algorithm key))
      act (spawn_authoring "pow" "block-authoring")
      act spawn_mining

    unfoldable pub new_full :
        Host o Public E → Configuration → Option String → Run o Public (Unit {0}) (ServiceError E)
    new_full h config author = do
      parts ← new_partial h config
      lift (or_else h.network substrate)
      let network = network_of parts
      act (build_network network)
      when config.offchain_worker (act (build_offchain_workers parts.client network))
      lift (or_else h.tasks substrate)
      act (spawn_tasks (tasks_of parts network))
      when config.is_authority (start_authoring h config author parts network)
      act start_network
