-- ===== src/Node/Service/Mines.antt =====
-- How a start of an authority ends, `new_full` of node/src/service.rs.
use mathlib.Core.List.{append_assoc}
use crain.Prelude.{
  ◌≡◌, refl, sym, ap, ◌∙◌, true, List, [], ◌∷◌, ◌++◌, Option, some, Result, ok, err, All,
  All-append, arith,
}
use Prim.Native.String.{String}
use crain.Pow as Pow
use crain.Node.Objects.{Objects, PartialComponents, MiningWorker, network_of, tasks_of, worker_of}
use crain.Node.Steps.{
  Effect, build_network, build_offchain_workers, spawn_tasks, start_mining_worker, spawn_authoring,
  spawn_mining, start_network, Run, ◌>>=◌,
}
use crain.Node.Service.Effects.{IsQuiet, when-All}
use crain.Node.Service.{
  Keys, Host, ServiceError, Configuration, as_service, decode_author, new_partial, start_authoring,
  new_full,
}
use crain.Node.Service.Walk.{
  step, start, partial-All, decode_author-All, offchain, finish, tail, workers, networking,
}

module _ {o : Objects} {P : Type 0} where
  -- Quiet effects, then the mining for an author, and the network at the end.
  abbrev pub MinesFor : P → List (Effect o P) → Type 0
  MinesFor key es =
      (before : List (Effect o P)) × (w : MiningWorker o P) × All IsQuiet before
      × (w.pre_runtime ≡ some key)
      × (es
          ≡ before
            ++ (start_mining_worker w
                ∷ spawn_authoring "pow" "block-authoring"
                ∷ spawn_mining
                ∷ start_network
                ∷ []))

  -- If the run returns, it ends with the mining for the author that was decoded.
  abbrev Ends : {A E : Type 0} → Result P String → Run o P A E → Type 0
  Ends decoded (es, ok a) = (key : P) × (decoded ≡ ok key) × MinesFor key es
  Ends decoded (es, err e) = Unit

  append-Ends :
      {A E : Type 0} (decoded : Result P String) (es : List (Effect o P)) (m : Run o P A E)
      → All IsQuiet es
      → Ends decoded m
      → Ends decoded (es ++ m.0, m.1)
  append-Ends decoded es (later, ok a) q (key, d, (before, w, quiet, author, e)) = (
    key,
    d,
    (
      es ++ before,
      w,
      All-append IsQuiet es before q quiet,
      author,
      ap (λ l. es ++ l) e ∙ sym (append_assoc es before _),
    ),
  )
  append-Ends decoded es (later, err e) q h = tt

  bind-Ends :
      {A B E : Type 0} (decoded : Result P String) (m : Run o P A E) (f : A → Run o P B E)
      → All IsQuiet m.0
      → ((a : A) → Ends decoded (f a))
      → Ends decoded (m >>= f)
  bind-Ends decoded (es, ok a) f q h = append-Ends decoded es (f a) q (h a)
  bind-Ends decoded (es, err e) f q h = tt

  returned_end :
      {E : Type 0} (decoded : Result P String) (m : Run o P (Unit {0}) E)
      → Ends decoded m
      → m.1 ≡ ok tt
      → (key : P) × (decoded ≡ ok key) × MinesFor key m.0
  returned_end decoded (es, ok a) h e = h
  returned_end decoded (es, err x) h e = absurd (ground arith)

module _ {o : Objects} (k : Keys) {E : Type 0} (h : Host o k.Public E) (config : Configuration)
    (author : Option String) where
  abbrev decoding : Run o k.Public k.Public String
  decoding = decode_author k author h config.keystore_path

  -- The authoring and the network, after the decoding of the author.
  closing :
      (d : Run o k.Public k.Public String) (p : PartialComponents o)
      → All IsQuiet d.0
      → Ends {E = ServiceError E} d.1 (
          (as_service d >>= λ key.
          start k h config (start_mining_worker (worker_of p (network_of p) (Pow.new p.client) key))
          >>= λ _. start k h config (spawn_authoring "pow" "block-authoring") >>= λ _.
              start k h config spawn_mining)
          >>= λ _. start k h config start_network)
  closing (es, ok key) p q = (key, refl, (es, _, q, refl, append_assoc es _ (start_network ∷ [])))
  closing (es, err e) p q = tt

  finish-Ends :
      (p : PartialComponents o)
      → config.is_authority ≡ true
      → Ends decoding.1 (finish k h config author p)
  unfolding start_authoring
  finish-Ends p yes_authority = rw yes_authority (
      closing decoding p
        (decode_author-All k h config IsQuiet author (λ t. tt) (λ t. tt) λ kind phrase key. tt))

  networking-Ends :
      (p : PartialComponents o)
      → config.is_authority ≡ true
      → Ends decoding.1 (networking k h config author p)
  networking-Ends p a = bind-Ends decoding.1 (step k h config h.network) _ tt λ _.
      bind-Ends decoding.1 (start k h config (build_network (network_of p)))
        (λ _. workers k h config author p) (tt, tt)
        λ _.
          bind-Ends decoding.1 (offchain k h config author p)
            (λ _. step k h config h.tasks >>= λ _. tail k h config author p)
            (when-All IsQuiet config.offchain_worker
              (start k h config (build_offchain_workers p.client (network_of p))) (tt, tt))
            λ _.
              bind-Ends decoding.1 (step k h config h.tasks) (λ _. tail k h config author p) tt
                λ _.
                  bind-Ends decoding.1 (start k h config (spawn_tasks (tasks_of p (network_of p))))
                    (λ _. finish k h config author p) (tt, tt) λ _. finish-Ends p a

  -- Every start of an authority that returns without an error has decoded an author and ends with
  -- the start of the mining worker for it, of the authoring and mining tasks, and of the network,
  -- in this order; nothing before that mines or joins the network.
  pub new_full_mines :
      config.is_authority ≡ true
      → (new_full k h config author).1 ≡ ok tt
      → (key : k.Public) × ((decode_author k author h config.keystore_path).1 ≡ ok key)
        × MinesFor key (new_full k h config author).0
  unfolding new_full
  new_full_mines a returned =
      returned_end decoding.1 (new_full k h config author)
        (bind-Ends decoding.1 (new_partial k h config) (λ p. networking k h config author p)
          (partial-All k h config IsQuiet tt tt tt) λ p. networking-Ends p a)
        returned
