-- ===== src/Node/Service/Walk.antt =====
-- `new_full` of node/src/service.rs, effect by effect.
use crain.Prelude.{refl, Bool, Bool-cases, inl, inr, Option, none, some, Result, ok, All}
use Prim.Native.String.{String}
use crain.Pow as Pow
use crain.Node.Objects.{
  Objects, PartialComponents, Network, components, network_of, tasks_of, worker_of,
}
use crain.Node.Steps.{
  Effect, info, warn, insert_key, start_mining_worker, spawn_authoring, spawn_mining,
  spawn_telemetry, new_pool, new_import_queue, build_network, build_offchain_workers, spawn_tasks,
  start_network, Run, ◌>>=◌, act, lift, when,
}
use crain.Node.Service.Effects.{Result-cases, bind-All, bind-Gives, Gives, given-All, when-All}
use crain.Node.Service.{
  Keys, Host, ServiceError, Configuration, substrate, or_else, has_telemetry, as_service,
  where_to_look, generate_author, decode_author, new_partial, start_authoring, new_full,
}

module _ {o : Objects} (k : Keys) {E : Type 0} (h : Host o k.Public E)
    (config : Configuration) where
  -- The steps of the two functions, with their types written out.
  abbrev pub step : Result (Unit {0}) E → Run o k.Public (Unit {0}) (ServiceError E)
  step r = lift (or_else r substrate)

  abbrev pub start : Effect o k.Public → Run o k.Public (Unit {0}) (ServiceError E)
  start e = act e

  abbrev pub telemetry : Bool
  telemetry = has_telemetry config.telemetry_endpoints

  -- The components and the network of this node.
  abbrev pub parts : PartialComponents o
  parts = components h.client h.backend config.is_authority telemetry

  abbrev pub network : Network o
  network = network_of parts

  -- The last steps of `new_partial`.
  abbrev pub queue : Run o k.Public (PartialComponents o) (ServiceError E)
  queue = start (new_import_queue parts.import_queue) >>= λ _. lift (ok parts)

  abbrev pub pool : Run o k.Public (PartialComponents o) (ServiceError E)
  pool = start (new_pool parts.transaction_pool) >>= λ _. step h.import_queue >>= λ _. queue

  abbrev pub reporting : Run o k.Public (PartialComponents o) (ServiceError E)
  reporting = when telemetry (start spawn_telemetry) >>= λ _. pool

  pub partial-Gives : Gives parts (new_partial k h config)
  unfolding new_partial
  partial-Gives = elim (Bool-cases config.keystore_remote) [
    | inl remote ↦ rw remote tt
    | inr here ↦ rw here (
        bind-Gives parts (when telemetry (step h.telemetry_worker)) _ λ _.
          bind-Gives parts (step h.full_parts) (λ _. reporting)
            λ _.
              bind-Gives parts (when telemetry (start spawn_telemetry)) (λ _. pool)
                λ _.
                  bind-Gives parts (start (new_pool parts.transaction_pool))
                    (λ _. step h.import_queue >>= λ _. queue)
                    λ _. bind-Gives parts (step h.import_queue) (λ _. queue) λ _. refl)
  ]

  module _ (Q : Effect o k.Public → Type 0) where
    pub partial-All :
        Q spawn_telemetry
        → Q (new_pool parts.transaction_pool)
        → Q (new_import_queue parts.import_queue)
        → All Q (new_partial k h config).0
    unfolding new_partial
    partial-All t p q = elim (Bool-cases config.keystore_remote) [
      | inl remote ↦ rw remote tt
      | inr here ↦ rw here (
          bind-All Q (when telemetry (step h.telemetry_worker)) _
            (when-All Q telemetry (step h.telemetry_worker) tt)
            λ _.
              bind-All Q (step h.full_parts) (λ _. reporting) tt
                λ _.
                  bind-All Q (when telemetry (start spawn_telemetry)) (λ _. pool)
                    (when-All Q telemetry (start spawn_telemetry) (t, tt))
                    λ _.
                      bind-All Q (start (new_pool parts.transaction_pool))
                        (λ _. step h.import_queue >>= λ _. queue) (p, tt)
                        λ _. bind-All Q (step h.import_queue) (λ _. queue) tt λ _. (q, tt))
    ]

    hint-All :
        (path : Option String)
        → ((t : String) → Q (info t))
        → ((t : String) → Q (warn t))
        → Q (where_to_look k path)
    hint-All none i w = w _
    hint-All (some path) i w = i _

    pub decode_author-All :
        (author : Option String)
        → ((t : String) → Q (info t))
        → ((t : String) → Q (warn t))
        → ((kind phrase : String) (key : k.Public) → Q (insert_key kind phrase key))
        → All Q (decode_author k author h config.keystore_path).0
    unfolding decode_author generate_author
    decode_author-All (some author) i w key = tt
    decode_author-All none i w key = elim (Result-cases h.inserted) [
      | inl (u, e) ↦ rw e (i _, (key _ _ _, (i _, (hint-All config.keystore_path i w, tt))))
      | inr (x, e) ↦ rw e (i _, (key _ _ _, tt))
    ]

    -- The effects of the authoring, over any components.
    pub authoring-All :
        (author : Option String) (p : PartialComponents o) (n : Network o)
        → ((t : String) → Q (info t))
        → ((t : String) → Q (warn t))
        → ((kind phrase : String) (key : k.Public) → Q (insert_key kind phrase key))
        → ((key : k.Public) → Q (start_mining_worker (worker_of p n (Pow.new p.client) key)))
        → Q (spawn_authoring "pow" "block-authoring")
        → Q spawn_mining
        → All Q (start_authoring k h config author p n).0
    unfolding start_authoring
    authoring-All author p n i w key worker task mine =
        bind-All Q (as_service (decode_author k author h config.keystore_path)) _
          (decode_author-All author i w key) λ a. (worker a, (task, (mine, tt)))

  -- The last steps of `new_full`, over any components.
  module _ (author : Option String) (p : PartialComponents o) where
    abbrev pub authoring : Run o k.Public (Unit {0}) (ServiceError E)
    authoring = when config.is_authority (start_authoring k h config author p (network_of p))

    abbrev pub finish : Run o k.Public (Unit {0}) (ServiceError E)
    finish = authoring >>= λ _. start start_network

    abbrev pub tail : Run o k.Public (Unit {0}) (ServiceError E)
    tail = start (spawn_tasks (tasks_of p (network_of p))) >>= λ _. finish

    abbrev pub offchain : Run o k.Public (Unit {0}) (ServiceError E)
    offchain = when config.offchain_worker (start (build_offchain_workers p.client (network_of p)))

    abbrev pub workers : Run o k.Public (Unit {0}) (ServiceError E)
    workers = offchain >>= λ _. step h.tasks >>= λ _. tail

    abbrev pub networking : Run o k.Public (Unit {0}) (ServiceError E)
    networking = step h.network >>= λ _. start (build_network (network_of p)) >>= λ _. workers

  -- What holds of each effect of a start holds of all of them, over the components of this node.
  pub new_full-All :
      (Q : Effect o k.Public → Type 0) (author : Option String)
      → All Q (new_partial k h config).0
      → Q (build_network network)
      → Q (build_offchain_workers h.client network)
      → Q (spawn_tasks (tasks_of parts network))
      → All Q (authoring author parts).0
      → Q start_network
      → All Q (new_full k h config author).0
  unfolding new_full
  new_full-All Q author partial net off tasks auth joined =
      given-All Q parts (new_partial k h config) (λ p. networking author p) partial partial-Gives
        (bind-All Q (step h.network)
          (λ _. start (build_network network) >>= λ _. workers author parts) tt
          λ _.
            bind-All Q (start (build_network network)) (λ _. workers author parts) (net, tt)
              λ _.
                bind-All Q (offchain author parts) (λ _. step h.tasks >>= λ _. tail author parts)
                  (when-All Q config.offchain_worker
                    (start (build_offchain_workers h.client network)) (off, tt))
                  λ _.
                    bind-All Q (step h.tasks) (λ _. tail author parts) tt
                      λ _.
                        bind-All Q (start (spawn_tasks (tasks_of parts network)))
                          (λ _. finish author parts) (tasks, tt)
                          λ _.
                            bind-All Q (authoring author parts) (λ _. start start_network) auth
                              λ _. (joined, tt))
