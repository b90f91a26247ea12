-- ===== src/Node/Service/Start.antt =====
-- The start of a node, `new_full` of node/src/service.rs.
use crain.Prelude.{◌≡◌, Bool, true, false, Option, All}
use Prim.Native.String.{String}
use crain.Node.Objects.{Objects, PartialComponents, network_of, tasks_of}
use crain.Node.Steps.{
  build_network, build_offchain_workers, spawn_tasks, start_network, Run, ◌>>=◌, when,
}
use crain.Node.Service.Effects.{
  IsNoMining, IsQuiet, FailsQuietly, bind-FailsQuietly, then_act-FailsQuietly, when-All,
}
use crain.Node.Service.{
  Keys, Host, ServiceError, Configuration, as_service, decode_author, new_partial, start_authoring,
  new_full,
}
use crain.Node.Service.Walk.{
  step, start, partial-All, decode_author-All, offchain, authoring, finish, tail, workers,
  networking, new_full-All,
}

module _ {o : Objects} (k : Keys) {E : Type 0} (h : Host o k.Public E)
    (config : Configuration) where
  -- Without the role of an authority, the start, whether it succeeds or fails, makes no key, no
  -- mining worker and no mining task.
  pub new_full_follower :
      (author : Option String)
      → config.is_authority ≡ false
      → All IsNoMining (new_full k h config author).0
  new_full_follower author no_authority =
      new_full-All k h config IsNoMining author (partial-All k h config IsNoMining tt tt tt) tt tt
        tt (rw no_authority tt) tt

  authoring-FailsQuietly :
      (author : Option String) (p : PartialComponents o)
      → FailsQuietly (start_authoring k h config author p (network_of p))
  unfolding start_authoring
  authoring-FailsQuietly author p =
      bind-FailsQuietly (as_service (decode_author k author h config.keystore_path)) _
        (decode_author-All k h config IsQuiet author (λ t. tt) (λ t. tt) λ kind phrase key. tt)
        λ key. tt

  when-FailsQuietly :
      (c : Bool) (m : Run o k.Public (Unit {0}) (ServiceError E))
      → FailsQuietly m
      → FailsQuietly (when c m)
  when-FailsQuietly true m q = q
  when-FailsQuietly false m q = tt

  -- A start that fails, at whichever step, has neither joined the network nor begun to mine.
  pub new_full-FailsQuietly : (author : Option String) → FailsQuietly (new_full k h config author)
  unfolding new_full
  new_full-FailsQuietly author =
      bind-FailsQuietly (new_partial k h config) (λ p. networking k h config author p)
        (partial-All k h config IsQuiet tt tt tt)
        λ p.
          bind-FailsQuietly (step k h config h.network)
            (λ _.
              start k h config (build_network (network_of p)) >>= λ _. workers k h config author p)
            tt
            λ _.
              bind-FailsQuietly (start k h config (build_network (network_of p)))
                (λ _. workers k h config author p) (tt, tt)
                λ _.
                  bind-FailsQuietly (offchain k h config author p)
                    (λ _. step k h config h.tasks >>= λ _. tail k h config author p)
                    (when-All IsQuiet config.offchain_worker
                      (start k h config (build_offchain_workers p.client (network_of p))) (tt, tt))
                    λ _.
                      bind-FailsQuietly (step k h config h.tasks) (λ _. tail k h config author p) tt
                        λ _.
                          bind-FailsQuietly
                            (start k h config (spawn_tasks (tasks_of p (network_of p))))
                            (λ _. finish k h config author p) (tt, tt)
                            λ _.
                              then_act-FailsQuietly (authoring k h config author p) start_network (
                                when-FailsQuietly config.is_authority
                                  (start_authoring k h config author p (network_of p))
                                  (authoring-FailsQuietly author p))
