-- ===== src/Node/ChainSpec/Launch.antt =====
-- What the genesis of the named chains of node/src/chain_spec.rs satisfies.
use crain.Prelude.{
  ℕ, ◌+◌, ◌*◌, ◌≤◌, ◌<◌, ◌≡◌, refl, ap, sym, ◌∙◌, List, [], ◌∷◌, map, length, suc, ◌^◌, some, done,
  ◌>>=◌, All, arith,
}
use Prim.Native.String.{String, ◌++◌}
use crain.Prelude.Machine.{u128_mod}
use crain.Primitives.{min_difficulty, max_difficulty}
use crain.Difficulty.{genesis}
use crain.Difficulty.Formula.{IsValid}
use crain.Difficulty.History.{genesis-IsValid}
use crain.Runtime.{existential_deposit}
use crain.Node.ChainSpec.{
  Keys, GenesisConfig, get_from_seed, get_account_id_from_seed, accounts_from_seeds,
  testnet_genesis, endowed_seeds,
}

-- No two entries are the same.
abbrev pub Distinct : {A : Type 0} → List A → Type 0
Distinct [] = Unit
Distinct (x ∷ xs) = All (λ y. ¬ (x ≡ y)) xs × Distinct xs

abbrev pub total : {A : Type 0} → List (A × ℕ) → ℕ
total [] = 0
total ((a, v) ∷ l) = v + total l

module _ (k : Keys) where
  open k use {Public, AccountId, public_from_string, into_account}

  -- The account that a seed stands for.
  abbrev pub IsAccountOf : String → AccountId → Type 0
  IsAccountOf seed a =
      (p : Public) × (public_from_string ("//" ++ seed) ≡ some p) × (into_account p ≡ a)

  abbrev pub Derives : String → Type 0
  Derives seed = (a : AccountId) × IsAccountOf seed a

  -- No two of the seeds stand for the same account.
  abbrev pub AreApart : List String → Type 0
  AreApart [] = Unit
  AreApart (s ∷ ss) =
      All (λ t. (a : AccountId) → IsAccountOf s a → ¬ IsAccountOf t a) ss × AreApart ss

  account_lem :
      (seed : String) (a : AccountId)
      → IsAccountOf seed a
      → get_account_id_from_seed k seed ≡ done a
  unfolding get_account_id_from_seed get_from_seed
  account_lem seed a (p, e, f) = rw (get_account_id_from_seed, get_from_seed, e) (ap done f)

  Accounts : List String → List AccountId → Type 0
  Accounts [] [] = Unit
  Accounts [] (a ∷ l) = ⊥
  Accounts (s ∷ ss) [] = ⊥
  Accounts (s ∷ ss) (a ∷ l) = IsAccountOf s a × Accounts ss l

  accounts_lem :
      (seeds : List String)
      → All Derives seeds
      → (l : List AccountId) × (accounts_from_seeds k seeds ≡ done l) × Accounts seeds l
  unfolding accounts_from_seeds Accounts
  accounts_lem [] h = ([], refl, tt)
  accounts_lem (s ∷ ss) ((a, d), h) =
      let (l, e, i) = accounts_lem ss h in (a ∷ l, rw (account_lem s a d, e), (d, i))

  apart-Accounts :
      (s : String) (a : AccountId) (ss : List String) (l : List AccountId)
      → IsAccountOf s a
      → All (λ t. (x : AccountId) → IsAccountOf s x → ¬ IsAccountOf t x) ss
      → Accounts ss l
      → All (λ y. ¬ (a ≡ y)) l
  unfolding Accounts
  apart-Accounts s a [] [] d c i = tt
  apart-Accounts s a [] (y ∷ l) d c i = absurd i
  apart-Accounts s a (t ∷ ss) [] d c i = absurd i
  apart-Accounts s a (t ∷ ss) (y ∷ l) d c ((p, e, f), i) =
      (λ q. c.0 a d (p, e, f ∙ sym q), apart-Accounts s a ss l d c.1 i)

  distinct-Accounts :
      (ss : List String) (l : List AccountId) → AreApart ss → Accounts ss l → Distinct l
  unfolding Accounts
  distinct-Accounts [] [] c i = tt
  distinct-Accounts [] (y ∷ l) c i = absurd i
  distinct-Accounts (t ∷ ss) [] c i = absurd i
  distinct-Accounts (t ∷ ss) (y ∷ l) c (e, i) =
      (apart-Accounts t y ss l e c.0 i, distinct-Accounts ss l c.1 i)

  length-Accounts : (ss : List String) (l : List AccountId) → Accounts ss l → length l ≡ length ss
  unfolding Accounts
  length-Accounts [] [] i = refl
  length-Accounts [] (y ∷ l) i = absurd i
  length-Accounts (t ∷ ss) [] i = absurd i
  length-Accounts (t ∷ ss) (y ∷ l) (e, i) = ap suc (length-Accounts ss l i)

  -- What the pallets ask of a genesis: no account is endowed twice, each receives at least the
  -- existential deposit, the issuance is a u128, and the difficulty pallet starts in a valid state.
  pub record IsLaunchable (g : GenesisConfig AccountId) : Type 0 where
    pub once : Distinct (map (λ (e : AccountId × ℕ). e.0) g.balances)
    pub funded : All (λ (e : AccountId × ℕ). existential_deposit ≤ e.1) g.balances
    pub issuance : total g.balances < u128_mod
    pub positive : min_difficulty ≤ g.initial_difficulty
    pub difficulty : IsValid (genesis g.initial_difficulty)

  accounts_of_balances :
      (l : List AccountId)
      → map (λ (e : AccountId × ℕ). e.0) (map (λ (a : AccountId). (a, 2 ^ 60)) l) ≡ l
  accounts_of_balances [] = refl
  accounts_of_balances (a ∷ l) = ap (◌∷◌ a) (accounts_of_balances l)

  All-funded :
      (l : List AccountId)
      → All
          (λ (e : AccountId × ℕ). existential_deposit ≤ e.1)
          (map (λ (a : AccountId). (a, 2 ^ 60)) l)
  All-funded [] = tt
  All-funded (a ∷ l) = (omega arith, All-funded l)

  total_issuance :
      (l : List AccountId) → total (map (λ (a : AccountId). (a, 2 ^ 60)) l) ≡ length l * 2 ^ 60
  total_issuance [] = refl
  total_issuance (a ∷ l) = omega (arith, total_issuance l)

  testnet_genesis-IsLaunchable :
      (wasm : List ℕ) (initial : ℕ) (l : List AccountId)
      → min_difficulty ≤ initial
      → initial ≤ max_difficulty
      → length l ≡ 12
      → Distinct l
      → IsLaunchable (testnet_genesis k wasm initial l)
  unfolding testnet_genesis
  testnet_genesis-IsLaunchable wasm initial l h j n d = record {
    once = rw (accounts_of_balances l) d;
    funded = All-funded l;
    issuance = omega (arith, total_issuance l);
    positive = h;
    difficulty = genesis-IsValid initial j;
  }

  -- The genesis that the closures of both configurations run.
  pub named_genesis :
      (wasm : List ℕ) (initial : ℕ)
      → min_difficulty ≤ initial
      → initial ≤ max_difficulty
      → All Derives (endowed_seeds k)
      → AreApart (endowed_seeds k)
      → (g : GenesisConfig AccountId) × ((accounts_from_seeds k (endowed_seeds k) >>= λ accounts.
            done (testnet_genesis k wasm initial accounts))
          ≡ done g)
        × (g.code ≡ wasm)
        × IsLaunchable g
  unfolding testnet_genesis
  named_genesis wasm initial h j a c =
      let (l, e, i) = accounts_lem (endowed_seeds k) a in
      (
        testnet_genesis k wasm initial l,
        rw e,
        refl,
        testnet_genesis-IsLaunchable wasm initial l h j (length-Accounts (endowed_seeds k) l i)
            (distinct-Accounts (endowed_seeds k) l c i),
      )
