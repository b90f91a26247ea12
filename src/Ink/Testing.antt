-- ===== src/Ink/Testing.antt =====
-- What the contracts' unit tests take from ink_env's default accounts and from Rust's assertions.
-- A test passes if it returns: an assertion that fails panics, as `unwrap` of an error does.
use crain.Prelude.{
  ◌≡◌, refl, Bool, true, false, if◌then◌else◌, Outcome, done, panic, ◌>>◌, Result, ok, err, arith,
}
use crain.Ink.{AccountId}

abbrev pub alice : AccountId
alice = 1

abbrev pub bob : AccountId
bob = 2

abbrev pub charlie : AccountId
charlie = 3

abbrev pub django : AccountId
django = 4

abbrev pub eve : AccountId
eve = 5

abbrev pub assert_true : Bool → Outcome (Unit {0})
assert_true true = done tt
assert_true false = panic

-- `unwrap` of a result.
abbrev pub unwrap_ok : {A E : Type 0} → Result A E → Outcome A
unwrap_ok (ok a) = done a
unwrap_ok (err e) = panic

-- A test goes on after an assertion that holds, and only then.
pub assert-true : (x : Bool) (o : Outcome (Unit {0})) → x ≡ true → (assert_true x >> o) ≡ o
assert-true x o h = rw h refl

pub asserted :
    (x : Bool) (o : Outcome (Unit {0}))
    → (assert_true x >> o) ≡ done tt
    → (x ≡ true) × (o ≡ done tt)
asserted true o h = (refl, h)
asserted false o h = absurd (ground arith)

pub panic-done : ◌≡◌ {A = Outcome (Unit {0})} panic (done tt) → ⊥
panic-done h = absurd (ground arith)

pub if_returns :
    (t : Bool) → ◌≡◌ {A = Outcome (Unit {0})} (if t then done tt else panic) (done tt) → t ≡ true
if_returns true h = refl
if_returns false h = absurd (panic-done h)

pub if_same {ℓ} : {A : Type ℓ} {a : A} (t : Bool) → (if t then a else a) ≡ a
if_same true = refl
if_same false = refl
