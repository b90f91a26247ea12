-- ===== src/Prelude/Machine.antt =====
-- Rust's unsigned machine integers, as native numbers with their range written out.
-- A build has overflow checks on (debug builds, and the default for contracts) or off (the
-- release profile): an operation out of range then panics, or wraps.
-- `U256` of `primitive-types` panics on overflow and on division by zero in every build.
use native.Mathlib.Nat.{mod-eq_of_lt, mod-lt, mod-add-mod}
use crain.Prelude.{
  ℕ, ap, Bool, ◌+◌, ◌-◌, ◌*◌, ◌/◌, ◌%◌, ◌^◌, ◌≤◌, ◌<◌, ◌≡◌, arith, ltb, leb, ◌==◌, if◌then◌else◌,
  refl, ◌⊎◌, inl, inr, Bool-cases, ltb→lt, ltb_false→le, le→ltb_false, Outcome, done, panic,
}

pub data Build : Type 0 where
  checked wrapping : Build

-- The number of values of a type of `w` bits, and its largest value.
abbrev pub u32_mod : ℕ
u32_mod = 2 ^ 32

abbrev pub u64_mod : ℕ
u64_mod = 2 ^ 64

abbrev pub u128_mod : ℕ
u128_mod = 2 ^ 128

abbrev pub u256_mod : ℕ
u256_mod = 2 ^ 256

-- A result of type uN, from the exact sum or product.
unfoldable pub fit : ℕ → Build → ℕ → Outcome ℕ
fit m checked n = if ltb n m then done n else panic
fit m wrapping n = done (n % m)

unfoldable pub add : ℕ → Build → ℕ → ℕ → Outcome ℕ
add m b x y = fit m b (x + y)

unfoldable pub mul : ℕ → Build → ℕ → ℕ → Outcome ℕ
mul m b x y = fit m b (x * y)

unfoldable pub sub : ℕ → Build → ℕ → ℕ → Outcome ℕ
sub m checked x y = if leb y x then done (x - y) else panic
sub m wrapping x y = done ((x + m - y) % m)

-- Division panics on a zero divisor in every build.
unfoldable pub div : ℕ → ℕ → Outcome ℕ
div x y = if y == 0 then panic else done (x / y)

-- In range, every build computes the exact result.
pub fit-eq_of_lt : (m : ℕ) (b : Build) (n : ℕ) → n < m → fit m b n ≡ done n
unfolding fit
fit-eq_of_lt m checked n h = ground arith
fit-eq_of_lt m wrapping n h = ap done (mod-eq_of_lt h)

-- What fits stands for the exact number in later sums, and what panics does so in them as well.
pub fit-cases :
    (m : ℕ) (b : Build) (n : ℕ)
    → 0 < m
    → ((fit m b n ≡ panic) × ((rest : ℕ) → fit m b (n + rest) ≡ panic))
      ⊎ ((t : ℕ) × (fit m b n ≡ done t)
          × (t < m)
          × ((rest : ℕ) → fit m b (t + rest) ≡ fit m b (n + rest)))
unfolding fit
fit-cases m checked n p = elim (Bool-cases (ltb n m)) [
  | inl e ↦ inr (n, rw e refl, ltb→lt _ _ e, λ rest. refl)
  | inr e ↦
      inl
        (rw e refl, λ rest. rw (le→ltb_false (n + rest) m (omega (arith, ltb_false→le _ _ e))) refl)
]
fit-cases m wrapping n p = inr (n % m, refl, mod-lt n p, λ rest. ap done (mod-add-mod n m rest))

pub add-eq_of_lt : (m : ℕ) (b : Build) (x y : ℕ) → x + y < m → add m b x y ≡ done (x + y)
unfolding add
add-eq_of_lt m b x y h = fit-eq_of_lt m b (x + y) h

pub mul-eq_of_lt : (m : ℕ) (b : Build) (x y : ℕ) → x * y < m → mul m b x y ≡ done (x * y)
unfolding mul
mul-eq_of_lt m b x y h = fit-eq_of_lt m b (x * y) h

pub sub-eq_of_le : (m : ℕ) (b : Build) (x y : ℕ) → y ≤ x → x < m → sub m b x y ≡ done (x - y)
unfolding sub
sub-eq_of_le m checked x y h l = ground arith
sub-eq_of_le m wrapping x y h l = grind arith

pub div-eq_of_pos : (x y : ℕ) → 0 < y → div x y ≡ done (x / y)
unfolding div
div-eq_of_pos x y h = ground arith

-- `U256::overflowing_mul` and `U256::saturating_add`.
unfoldable pub overflowing_mul : ℕ → ℕ → ℕ × Bool
overflowing_mul x y = (x * y % u256_mod, leb u256_mod (x * y))

unfoldable pub saturating_add : ℕ → ℕ → ℕ
saturating_add x y = if ltb (x + y) u256_mod then x + y else u256_mod - 1

-- The remainder panics on a zero divisor in every build.
unfoldable pub rem : ℕ → ℕ → Outcome ℕ
rem x y = if y == 0 then panic else done (x % y)

pub rem-eq_of_pos : (x y : ℕ) → 0 < y → rem x y ≡ done (x % y)
unfolding rem
rem-eq_of_pos x y h = ground arith
