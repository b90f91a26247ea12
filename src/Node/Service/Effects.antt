-- ===== src/Node/Service/Effects.antt =====
-- Which effects a start of the node has, and what holds of a sequence of steps.
use crain.Prelude.{
  ◌≡◌, refl, Bool, ◌⊎◌, inl, inr, true, false, List, ◌++◌, Result, ok, err, All, All-append,
}
use crain.Node.Objects.{Objects}
use crain.Node.Steps.{
  Effect, info, warn, insert_key, spawn_telemetry, new_pool, new_import_queue, build_network,
  build_offchain_workers, spawn_tasks, start_mining_worker, spawn_authoring, spawn_mining,
  start_network, Run, ◌>>=◌, act, when,
}

-- Effects that take no part in mining.
abbrev pub IsNoMining : {o : Objects} {P : Type 0} → Effect o P → Type 0
IsNoMining (insert_key kind phrase key) = ⊥
IsNoMining (start_mining_worker w) = ⊥
IsNoMining (spawn_authoring name group) = ⊥
IsNoMining spawn_mining = ⊥
IsNoMining (info t) = Unit
IsNoMining (warn t) = Unit
IsNoMining spawn_telemetry = Unit
IsNoMining (new_pool p) = Unit
IsNoMining (new_import_queue q) = Unit
IsNoMining (build_network n) = Unit
IsNoMining (build_offchain_workers c n) = Unit
IsNoMining (spawn_tasks t) = Unit
IsNoMining start_network = Unit

-- Effects after which the node neither mines nor takes part in the network.
abbrev pub IsQuiet : {o : Objects} {P : Type 0} → Effect o P → Type 0
IsQuiet start_network = ⊥
IsQuiet (start_mining_worker w) = ⊥
IsQuiet (spawn_authoring name group) = ⊥
IsQuiet spawn_mining = ⊥
IsQuiet (insert_key kind phrase key) = Unit
IsQuiet (info t) = Unit
IsQuiet (warn t) = Unit
IsQuiet spawn_telemetry = Unit
IsQuiet (new_pool p) = Unit
IsQuiet (new_import_queue q) = Unit
IsQuiet (build_network n) = Unit
IsQuiet (build_offchain_workers c n) = Unit
IsQuiet (spawn_tasks t) = Unit

pub Result-cases :
    {A E : Type 0} (r : Result A E) → ((a : A) × (r ≡ ok a)) ⊎ ((e : E) × (r ≡ err e))
Result-cases (ok a) = inl (a, refl)
Result-cases (err e) = inr (e, refl)

module _ {o : Objects} {P E : Type 0} where
  -- If the run failed, its effects were quiet.
  abbrev pub FailsQuietly : {A : Type 0} → Run o P A E → Type 0
  FailsQuietly (es, ok a) = Unit
  FailsQuietly (es, err e) = All IsQuiet es

  pub bind-All :
      (Q : Effect o P → Type 0) {A B : Type 0} (m : Run o P A E) (f : A → Run o P B E)
      → All Q m.0
      → ((a : A) → All Q (f a).0)
      → All Q (m >>= f).0
  bind-All Q (es, ok a) f h k = All-append Q es (f a).0 h (k a)
  bind-All Q (es, err e) f h k = h

  append-FailsQuietly :
      {A : Type 0} (es : List (Effect o P)) (m : Run o P A E)
      → All IsQuiet es
      → FailsQuietly m
      → FailsQuietly (es ++ m.0, m.1)
  append-FailsQuietly es (later, ok a) h k = tt
  append-FailsQuietly es (later, err e) h k = All-append IsQuiet es later h k

  pub bind-FailsQuietly :
      {A B : Type 0} (m : Run o P A E) (f : A → Run o P B E)
      → All IsQuiet m.0
      → ((a : A) → FailsQuietly (f a))
      → FailsQuietly (m >>= f)
  bind-FailsQuietly (es, ok a) f h k = append-FailsQuietly es (f a) h (k a)
  bind-FailsQuietly (es, err e) f h k = h

  -- An effect after the run does not fail.
  pub then_act-FailsQuietly :
      (m : Run o P (Unit {0}) E) (e : Effect o P)
      → FailsQuietly m
      → FailsQuietly (m >>= λ u. act {o = o} {P = P} {E = E} e)
  then_act-FailsQuietly (es, ok a) e h = tt
  then_act-FailsQuietly (es, err x) e h = h

  pub when-All :
      (Q : Effect o P → Type 0) (c : Bool) (m : Run o P (Unit {0}) E)
      → All Q m.0
      → All Q (when c m).0
  when-All Q true m h = h
  when-All Q false m h = tt

  -- If the run returns, it returns this.
  abbrev pub Gives : {A : Type 0} → A → Run o P A E → Type 0
  Gives v (es, ok a) = a ≡ v
  Gives v (es, err e) = Unit

  append-Gives :
      {B : Type 0} (v : B) (es : List (Effect o P)) (m : Run o P B E)
      → Gives v m
      → Gives v (es ++ m.0, m.1)
  append-Gives v es (later, ok b) g = g
  append-Gives v es (later, err e) g = tt

  pub bind-Gives :
      {A B : Type 0} (v : B) (m : Run o P A E) (f : A → Run o P B E)
      → ((a : A) → Gives v (f a))
      → Gives v (m >>= f)
  bind-Gives v (es, ok a) f h = append-Gives v es (f a) (h a)
  bind-Gives v (es, err e) f h = tt

  pub given-All :
      (Q : Effect o P → Type 0) {A B : Type 0} (v : A) (m : Run o P A E) (f : A → Run o P B E)
      → All Q m.0
      → Gives v m
      → All Q (f v).0
      → All Q (m >>= f).0
  given-All Q v (es, ok a) f h g k = All-append Q es (f a).0 h (rw g k)
  given-All Q v (es, err e) f h g k = h
