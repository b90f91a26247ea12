-- ===== src/Prelude/Runs.antt =====
-- What running Rust code comes to: it returns a value, or it panics (a contract traps).
use mathlib.Core.Path.{◌≡◌, refl}
use mathlib.Core.Logic.{◌⊎◌, inl, inr}

pub data Outcome {ℓ} (A : Type ℓ) : Type ℓ where
  done : A → Outcome A
  panic : Outcome A

infixl 5 ◌>>=◌ ◌>>◌
abbrev pub ◌>>=◌ {ℓ κ} : {A : Type ℓ} {B : Type κ} → Outcome A → (A → Outcome B) → Outcome B
done a >>= f = f a
panic >>= f = panic

abbrev pub ◌>>◌ {ℓ} : {B : Type ℓ} → Outcome (Unit {0}) → Outcome B → Outcome B
m >> k = m >>= λ _. k

-- The result of a run that does not panic, under a function.
abbrev pub map_done {ℓ κ} : {A : Type ℓ} {B : Type κ} → (A → B) → Outcome A → Outcome B
map_done f (done a) = done (f a)
map_done f panic = panic

pub Outcome-cases {ℓ} : {A : Type ℓ} (m : Outcome A) → (m ≡ panic) ⊎ ((a : A) × (m ≡ done a))
Outcome-cases panic = inl refl
Outcome-cases (done a) = inr (a, refl)

pub done-injective {ℓ} : {A : Type ℓ} {m : Outcome A} {x y : A} → m ≡ done x → m ≡ done y → x ≡ y
done-injective h k = cc

-- A run in two parts that returns has returned from both.
pub bind-done {ℓ κ} :
    {A : Type ℓ} {B : Type κ} (m : Outcome A) (f : A → Outcome B) {y : B}
    → (m >>= f) ≡ done y
    → (a : A) × (m ≡ done a) × (f a ≡ done y)
bind-done (done a) f h = (a, refl, h)
bind-done panic f h = absurd (cc)

-- Rust's `Result<A, E>`.
pub data Result {ℓ κ} (A : Type ℓ) (E : Type κ) : Type (ℓ ⊔ κ) where
  ok : A → Result A E
  err : E → Result A E

pub ok-injective {ℓ κ} :
    {A : Type ℓ} {E : Type κ} {r : Result A E} {x y : A} → r ≡ ok x → r ≡ ok y → x ≡ y
ok-injective h k = cc
