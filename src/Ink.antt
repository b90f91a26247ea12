-- ===== src/Ink.antt =====
-- What the contracts take from ink!: the `Mapping` of `ink_storage`, and account identifiers.
-- An `AccountId` is 32 bytes that the contracts only compare, so it is a number here.
pub mod Balances
pub mod Testing
use crain.Prelude.{ℕ, ◌≡◌, refl, Bool, ◌&&◌, ◌==◌, if◌then◌else◌, List, [], ◌∷◌, Option, none, some}

abbrev pub AccountId : Type 0
AccountId = ℕ

abbrev pub pair_eq : AccountId × AccountId → AccountId × AccountId → Bool
pair_eq (a, b) (c, d) = a == c && b == d

-- A storage mapping with its documented laws: a new one is empty, and what is inserted is read
-- back at its key alone.
pub record Mapping (K V : Type 0) (same : K → K → Bool) : Type 1 where
  pub Map : Type 0
  pub empty : Map
  pub get : Map → K → Option V
  pub insert : Map → K → V → Map
  pub get-empty : (k : K) → get empty k ≡ none
  pub get-insert :
      (m : Map) (k j : K) (v : V) → get (insert m k v) j ≡ (if same k j then some v else get m j)

module _ {K V : Type 0} {same : K → K → Bool} (m : Mapping K V same) where
  pub get-empty : (k : K) → m.get m.empty k ≡ none
  get-empty = m.get-empty

  pub get-insert :
      (s : m.Map) (k j : K) (v : V)
      → m.get (m.insert s k v) j ≡ (if same k j then some v else m.get s j)
  get-insert = m.get-insert

-- What rewriting reads of any mapping uses.
pub ruleset mapping_laws = (get-empty, get-insert)

-- `unwrap_or_default` for a balance.
abbrev pub or_zero : Option ℕ → ℕ
or_zero none = 0
or_zero (some v) = v

-- A mapping by its reads: it shows that the laws can hold.
abbrev pub by_reads : (K V : Type 0) (same : K → K → Bool) → Mapping K V same
by_reads K V same = record {
  Map = K → Option V;
  empty = λ k. none;
  get = λ m k. m k;
  insert = λ m k v j. if same k j then some v else m j;
  get-empty = λ k. refl;
  get-insert = λ m k j v. refl;
}

-- The value of the first pair with a key.
abbrev pub first_at : {K V : Type 0} → (K → K → Bool) → List (K × V) → K → Option V
first_at same [] j = none
first_at same ((k, v) ∷ later) j = if same k j then some v else first_at same later j

-- A mapping by the list of what was inserted, the last first.
abbrev pub by_pairs : (K V : Type 0) (same : K → K → Bool) → Mapping K V same
by_pairs K V same = record {
  Map = List (K × V);
  empty = [];
  get = first_at same;
  insert = λ m k v. (k, v) ∷ m;
  get-empty = λ k. refl;
  get-insert = λ m k j v. refl;
}
