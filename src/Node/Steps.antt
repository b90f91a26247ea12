-- ===== src/Node/Steps.antt =====
-- What a start of the node in node/src/service.rs does, in order.
use crain.Prelude.{Bool, true, false, List, [], ◌∷◌, ◌++◌, Result, ok, err}
use Prim.Native.String.{String}
use crain.Node.Objects.{Objects, BasicPool, ImportQueue, Network, SpawnTasksParams, MiningWorker}

module _ (o : Objects) where
  open o use {Client}

  -- What a node does while it starts: what it logs, the key that it gives to the keystore with its
  -- kind and its phrase, what it builds, and the tasks that it starts. The task of the authoring has
  -- a name and a group.
  pub data Effect (Public : Type 0) : Type 0 where
    info warn : String → Effect Public
    insert_key : String → String → Public → Effect Public
    spawn_telemetry : Effect Public
    new_pool : BasicPool o → Effect Public
    new_import_queue : ImportQueue o → Effect Public
    build_network : Network o → Effect Public
    build_offchain_workers : Client → Network o → Effect Public
    spawn_tasks : SpawnTasksParams o → Effect Public
    start_mining_worker : MiningWorker o Public → Effect Public
    spawn_authoring : String → String → Effect Public
    spawn_mining start_network : Effect Public

  -- A fallible run with its effects, also those before an error.
  abbrev pub Run : Type 0 → Type 0 → Type 0 → Type 0
  Run P A E = List (Effect P) × Result A E

infixl 5 ◌>>=◌ ◌>>◌
abbrev pub ◌>>=◌ : {o : Objects} {P A B E : Type 0} → Run o P A E → (A → Run o P B E) → Run o P B E
(es, ok a) >>= f = let (later, r) = f a in (es ++ later, r)
(es, err e) >>= f = (es, err e)

abbrev pub ◌>>◌ : {o : Objects} {P B E : Type 0} → Run o P (Unit {0}) E → Run o P B E → Run o P B E
m >> k = m >>= λ _. k

abbrev pub act : {o : Objects} {P E : Type 0} → Effect o P → Run o P (Unit {0}) E
act e = (e ∷ [], ok tt)

abbrev pub lift : {o : Objects} {P A E : Type 0} → Result A E → Run o P A E
lift r = ([], r)

abbrev pub when : {o : Objects} {P E : Type 0} → Bool → Run o P (Unit {0}) E → Run o P (Unit {0}) E
when true m = m
when false m = ([], ok tt)
