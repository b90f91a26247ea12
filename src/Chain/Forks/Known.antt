-- ===== src/Chain/Forks/Known.antt =====
-- Each chain of a node with forks is one that blocks can make from the genesis, and stays known.
use mathlib.Core.Option.{some-injective}
use crain.Prelude.{
  Bool, ℕ, ◌≤◌, ◌≡◌, refl, ap, sym, ◌∙◌, inl, inr, Bool-cases, true, false, if◌then◌else◌, [], ◌∷◌,
  ◌++◌, Option, none, some, ok, arith,
}
use crain.Prelude.Machine.{Build}
use crain.Primitives.{min_difficulty, max_difficulty}
use crain.Pow.Crypto.{Crypto}
use crain.Pow as Pow
use crain.Runtime as Runtime
use crain.Runtime.{target_block_time}
use crain.Chain.{Chain, new_chain, extended, Step, import_block, Reach, start, next}
use crain.Chain.History.{difficulty_of}
use crain.Chain.Sound.{IsSound, Reach-IsSound, asked-difficulty, history}
use crain.Chain.Forks.{Import, Client, chain_at, asked_on, Accepts, Runs, launched, imported}

none_is_not_some : {A : Type 0} {a : A} → ◌≡◌ {A = Option A} none (some a) → ⊥
none_is_not_some h = absurd (ground arith)

module _ (c : Crypto) (b : Build) (initial : ℕ) (genesis_hash : c.H256) where
  open c use {H256, h256_eq, h256_eq_iff}

  abbrev at : Client H256 → H256 → Option (Chain H256)
  at = chain_at c b initial genesis_hash

  -- At a known block the algorithm asks for what the pallet stores there.
  pub asked_on_known :
      (client : Client H256) (hash : H256) {s : Chain H256}
      → at client hash ≡ some s
      → asked_on c b initial genesis_hash client hash ≡ ok s.storage.current_difficulty
  unfolding asked_on Pow.new Pow.clone Pow.difficulty Runtime.difficulty chain_at
  asked_on_known client hash known = rw known refl

  -- An imported block is a step from its parent's chain.
  Accepts-Step :
      {client : Client H256} {x : Import H256} (a : Accepts c b initial genesis_hash client x)
      → Step c b a.above (extended c b x.block x.storage a.above)
  Accepts-Step {client} {x} a =
      import_block x.parent x.block x.storage
        (asked-difficulty c b a.above x.parent
          ∙ sym (asked_on_known client x.parent a.parent_known)
          ∙ a.asked)
        a.verified a.later a.small a.executes refl

  -- A new block's chain is its parent's and it; every other chain stays as it was.
  pub chain_at-new :
      {client : Client H256} {x : Import H256} (a : Accepts c b initial genesis_hash client x)
      (hash : H256)
      → h256_eq hash x.hash ≡ true
      → at (x ∷ client) hash ≡ some (extended c b x.block x.storage a.above)
  unfolding chain_at
  chain_at-new a hash e = rw (e, a.parent_known) refl

  pub chain_at-old :
      (client : Client H256) (x : Import H256) (hash : H256)
      → h256_eq hash x.hash ≡ false
      → at (x ∷ client) hash ≡ at client hash
  unfolding chain_at
  chain_at-old client x hash e = rw e refl

  genesis_chain :
      (t : Bool) {s : Chain H256}
      → (if t then some (new_chain initial) else none) ≡ some s
      → new_chain initial ≡ s
  genesis_chain true h = some-injective _ _ h
  genesis_chain false h = absurd (ground arith)

  -- Whatever was imported, in whichever order, a known block's chain is one that blocks can make.
  pub known-Reach :
      {client : Client H256} (hash : H256) {s : Chain H256}
      → Runs c b initial genesis_hash client
      → at client hash ≡ some s
      → Reach c b initial s
  unfolding chain_at
  known-Reach hash launched known = rw (← genesis_chain (h256_eq hash genesis_hash) known) start
  known-Reach hash (imported client x r a) known = elim (Bool-cases (h256_eq hash x.hash)) [
    | inl e ↦
        rw (← some-injective _ _ (sym (chain_at-new a hash e) ∙ known))
          (next (known-Reach x.parent r a.parent_known) (Accepts-Step a))
    | inr e ↦ known-Reach hash r (sym (chain_at-old client x hash e) ∙ known)
  ]

  pub Runs-imported :
      {client : Client H256} {x : Import H256}
      → Runs c b initial genesis_hash (x ∷ client)
      → Runs c b initial genesis_hash client × Accepts c b initial genesis_hash client x
  Runs-imported (imported client x r a) = (r, a)

  differs :
      {client : Client H256} {x : Import H256} (hash : H256) {s : Chain H256}
      → Accepts c b initial genesis_hash client x
      → at client hash ≡ some s
      → h256_eq hash x.hash ≡ false
  differs {client} {x} hash a known = elim (Bool-cases (h256_eq hash x.hash)) [
    | inl e ↦
        let same : at client x.hash ≡ at client hash =
          ap (at client) (sym ((h256_eq_iff hash x.hash).0 e)) in
        absurd (none_is_not_some (sym a.unknown ∙ same ∙ known))
    | inr e ↦ e
  ]

  -- Later imports change no chain that was known.
  pub stays_known :
      (more client : Client H256) (hash : H256) {s : Chain H256}
      → Runs c b initial genesis_hash (more ++ client)
      → at client hash ≡ some s
      → at (more ++ client) hash ≡ some s
  stays_known [] client hash r known = known
  stays_known (x ∷ more) client hash r known =
      let (r', a) = Runs-imported {client = more ++ client} {x = x} r in
      let still = stays_known more client hash r' known in
      chain_at-old (more ++ client) x hash (differs hash a still) ∙ still

  -- From an initial difficulty within the bounds of the primitives, whichever forks were imported in
  -- whichever order: the chain that ends in a known block is sound, and from its import on, through
  -- any more imports, the algorithm asks on it for what the specification makes of that chain's
  -- blocks alone.
  pub known_chain-IsSound :
      (more client : Client H256) (hash : H256) {s : Chain H256}
      → min_difficulty ≤ initial
      → initial ≤ max_difficulty
      → Runs c b initial genesis_hash (more ++ client)
      → at client hash ≡ some s
      → IsSound c b initial s
        × (asked_on c b initial genesis_hash (more ++ client) hash
            ≡ ok (difficulty_of target_block_time initial (history s)))
  known_chain-IsSound more client hash l h r known =
      let still = stays_known more client hash r known in
      let v = Reach-IsSound c b initial l h (known-Reach hash r still) in
      (v, asked_on_known (more ++ client) hash still ∙ ap ok v.held.served)
