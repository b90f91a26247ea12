-- ===== src/Node/Service/Samples.antt =====
-- Sample keys, hosts and configurations. There are two keys, with their texts.
use crain.Prelude.{ℕ, ◌≡◌, refl, Bool, true, false, if◌then◌else◌, [], ◌∷◌, Option, none, some, ok}
use Prim.Native.String.{String}
use text.Mathlib.Text.{◌==◌, starts_with}
use crain.Node.Objects.{Objects}
use crain.Node.Service.{Keys, Host, Configuration}

abbrev pub print : Bool → String
print true = "5A"
print false = "5B"

abbrev pub from_address : String → Option (Bool × Unit {0})
from_address t =
    if t == "5A" then some (true, tt) else (if t == "5B" then some (false, tt) else none)

pub printed : (p : Bool) → from_address (print p) ≡ some (p, tt)
printed true = refl
printed false = refl

pub printed_no_hex : (p : Bool) → starts_with (print p) "0x" ≡ false
printed_no_hex true = refl
printed_no_hex false = refl

abbrev pub two_keys : Keys
two_keys = record {
  Public = Bool;
  Version = Unit {0};
  same = λ v w. true;
  bare_sr25519_account = tt;
  from_hex = λ t. if t == "0a" then some true else none;
  from_ss58check_with_version = from_address;
  to_ss58check_with_version = λ p v. print p;
  same_refl = λ v. refl;
  read_back = λ p v. printed p;
  no_zero = λ p v. printed_no_hex p;
}

-- The client is 7, and the backend 8.
abbrev pub numbered : Objects
numbered = record { Client = ℕ; Backend = ℕ; DenyUnsafe = Bool }

abbrev pub host : Host numbered Bool String
host = record {
  client = 7;
  backend = 8;
  pair_public = false;
  phrase = "twelve words";
  inserted = ok tt;
  telemetry_worker = ok tt;
  full_parts = ok tt;
  import_queue = ok tt;
  network = ok tt;
  tasks = ok tt;
}

abbrev pub miner : Configuration
miner = record {
  keystore_remote = false;
  telemetry_endpoints = some ("wss://telemetry" ∷ []);
  is_authority = true;
  offchain_worker = true;
  keystore_path = none;
}

abbrev pub follower : Configuration
follower = record miner { is_authority = false }
