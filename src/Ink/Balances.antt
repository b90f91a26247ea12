-- ===== src/Ink/Balances.antt =====
-- Balances as a function of the account, and what backs them: finitely many accounts whose balances
-- add up to the supply.
use crain.Prelude.{
  ℕ, ◌+◌, ◌-◌, ◌≤◌, ◌≡◌, refl, Bool, true, false, Bool-cases, inl, inr, ◌==◌, ◌||◌, if◌then◌else◌,
  List, [], ◌∷◌, arith,
}

-- `Vec::contains`
abbrev pub contains : List ℕ → ℕ → Bool
contains [] a = false
contains (x ∷ xs) a = x == a || contains xs a

-- No account is listed twice.
abbrev pub Distinct : List ℕ → Type 0
Distinct [] = Unit
Distinct (x ∷ xs) = (contains xs x ≡ false) × Distinct xs

abbrev pub sum_of : (ℕ → ℕ) → List ℕ → ℕ
sum_of f [] = 0
sum_of f (x ∷ xs) = f x + sum_of f xs

abbrev pub update : (ℕ → ℕ) → ℕ → ℕ → ℕ → ℕ
update f k v j = if k == j then v else f j

-- The balances are those of the listed accounts alone, and they add up to the supply.
pub record IsBacked (f : ℕ → ℕ) (supply : ℕ) : Type 0 where
  pub accounts : List ℕ
  pub distinct : Distinct accounts
  pub covers : (a : ℕ) → contains accounts a ≡ false → f a ≡ 0
  pub adds_up : sum_of f accounts ≡ supply

sum_of-update_out :
    (f : ℕ → ℕ) (k v : ℕ) (l : List ℕ) → contains l k ≡ false → sum_of (update f k v) l ≡ sum_of f l
sum_of-update_out f k v [] h = refl
sum_of-update_out f k v (x ∷ l) h = ground (arith, sum_of-update_out f k v l)

sum_of-update_in :
    (f : ℕ → ℕ) (k v : ℕ) (l : List ℕ)
    → Distinct l
    → contains l k ≡ true
    → sum_of (update f k v) l + f k ≡ sum_of f l + v
sum_of-update_in f k v [] d h = cc
sum_of-update_in f k v (x ∷ l) d h =
    ground (arith, sum_of-update_in f k v l d.1, sum_of-update_out f k v l)

le-sum_of : (f : ℕ → ℕ) (k : ℕ) (l : List ℕ) → contains l k ≡ true → f k ≤ sum_of f l
le-sum_of f k [] h = cc
le-sum_of f k (x ∷ l) h = ground (arith, le-sum_of f k l)

-- No balance exceeds the supply.
pub IsBacked-le : {f : ℕ → ℕ} {supply : ℕ} (k : ℕ) → IsBacked f supply → f k ≤ supply
IsBacked-le {f} {supply} k b = elim (Bool-cases (contains b.accounts k)) [
  | inl e ↦ omega (arith, le-sum_of f k b.accounts e, b.adds_up)
  | inr e ↦ omega (arith, b.covers k e)
]

-- Setting one balance moves the supply by the difference.
pub IsBacked-update :
    {f : ℕ → ℕ} {supply : ℕ} (k v : ℕ)
    → IsBacked f supply
    → IsBacked (update f k v) (supply - f k + v)
IsBacked-update {f} {supply} k v b = elim (Bool-cases (contains b.accounts k)) [
  | inl e ↦ record {
    accounts = b.accounts;
    distinct = b.distinct;
    covers = λ a h. ground (arith, b.covers a h);
    adds_up = omega (
      arith,
      sum_of-update_in f k v b.accounts b.distinct e,
      b.adds_up,
      le-sum_of f k b.accounts e,
    );
  }
  | inr e ↦ record {
    accounts = k ∷ b.accounts;
    distinct = (e, b.distinct);
    covers = λ a h. ground (arith, b.covers a);
    adds_up = ground (arith, sum_of-update_out f k v b.accounts e, b.adds_up, b.covers k e);
  }
]
