-- ===== src/Node/Service/Tests.antt =====
-- Starts of nodes as runs, and instances of the theorems.
use crain.Prelude.{
  ap, Bool, map, ◌≡◌, refl, ◌⊎◌, true, false, [], ◌∷◌, ◌++◌, none, some, ok, err, All,
}
use Prim.Native.String
use Prim.Native.String.{String, slice, len}
use text.Mathlib.Text.{starts_with}
use crain.Pow as Pow
use crain.Node.Steps.{
  info, insert_key, spawn_telemetry, new_pool, new_import_queue, build_network,
  build_offchain_workers, spawn_tasks, start_mining_worker, spawn_authoring, spawn_mining,
  start_network,
}
use crain.Node.Service.{
  Host, substrate, id, where_to_look, decode_given, decode_author, new_partial, start_authoring,
  new_full,
}
use crain.Node.Service.Samples.{from_address, numbered, two_keys, host, miner, follower}
use crain.Node.Service.Author.{decode_given_sound, generated_author_returns}
use crain.Node.Service.Effects.{IsNoMining, FailsQuietly}
use crain.Node.Service.Start.{new_full_follower, new_full-FailsQuietly}
use crain.Node.Service.Mines.{MinesFor, new_full_mines}
use crain.Node.Service.Errors.{first_error, partial_errors, full_errors}
use crain.Node.Service.Walk.{parts, network}
use crain.Node.Objects.{tasks_of, worker_of}

authors :
    map (decode_given two_keys) ("0x0a" ∷ "0xff" ∷ "5B" ∷ "5C" ∷ [])
    ≡ ok true ∷ err "Invalid author account" ∷ ok false ∷ err "Invalid author address" ∷ []
unfolding decode_given
authors = refl

mining_starts : new_full two_keys host miner (some "5A") ≡ (
  spawn_telemetry
      ∷ new_pool (record { is_validator = true; client = 7 })
      ∷ new_import_queue (parts two_keys host miner).import_queue
      ∷ build_network (network two_keys host miner)
      ∷ build_offchain_workers 7 (network two_keys host miner)
      ∷ spawn_tasks (tasks_of (parts two_keys host miner) (network two_keys host miner))
      ∷ start_mining_worker (
          worker_of
            (parts two_keys host miner)
            (network two_keys host miner)
            (record { client = 7 })
            true)
      ∷ spawn_authoring "pow" "block-authoring"
      ∷ spawn_mining
      ∷ start_network
      ∷ [],
  ok tt,
)
unfolding new_full new_partial start_authoring decode_author decode_given Pow.new Pow.clone
mining_starts = refl

returned : (new_full two_keys host miner (some "5A")).1 ≡ ok tt
returned = ap (λ m. m.1) mining_starts

address_is_given : decode_given two_keys "5A" ≡ ok true
unfolding decode_given
address_is_given = refl

decode_given_sound_example :
    (starts_with "5A" "0x" ≡ true) × (two_keys.from_hex (slice "5A" 2 (len "5A")) ≡ some true)
    ⊎ (starts_with "5A" "0x" ≡ false)
      × ((v : Unit {0}) × (from_address "5A" ≡ some (true, v)) × (two_keys.same v tt ≡ true))
decode_given_sound_example = decode_given_sound two_keys "5A" true address_is_given

generated_author_returns_example :
    (address : String) × (decode_author two_keys none host none ≡ (
      info "The node is configured for mining, but no author key is provided."
          ∷ insert_key id host.phrase false
          ∷ info (String.◌++◌ "Generated a mining key with address: " address)
          ∷ where_to_look two_keys none
          ∷ [],
      ok false,
    ))
    × (decode_author two_keys (some address) host none ≡ ([], ok false))
generated_author_returns_example = generated_author_returns two_keys host host none none refl

new_full_follower_example : All IsNoMining (new_full two_keys host follower none).0
new_full_follower_example = new_full_follower two_keys host follower none refl

new_full-FailsQuietly_example : FailsQuietly (new_full two_keys host miner (some "5C"))
new_full-FailsQuietly_example = new_full-FailsQuietly two_keys host miner (some "5C")

new_full_mines_example :
    (key : Bool) × ((decode_author two_keys (some "5A") host miner.keystore_path).1 ≡ ok key)
    × MinesFor key (new_full two_keys host miner (some "5A")).0
new_full_mines_example = new_full_mines two_keys host miner (some "5A") refl returned

-- The import queue fails, and so would the network; the offered telemetry does not.
abbrev broken : Host numbered Bool String
broken = record host { import_queue = err "no queue"; network = err "no network" }

-- The import queue's error is the first.
import_queue_fails :
    first_error
      (partial_errors two_keys broken miner ++ full_errors two_keys broken miner (some "5A"))
    ≡ err (substrate "no queue")
import_queue_fails = refl
