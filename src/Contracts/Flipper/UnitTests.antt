-- ===== src/Contracts/Flipper/UnitTests.antt =====
-- The unit tests of contracts/flipper/src/lib.rs, which pass.
use crain.Prelude.{◌≡◌, refl, false, not, Outcome, done, ◌>>◌}
use crain.Ink.Testing.{assert_true}
use crain.Contracts.Flipper.{new, default, flip, get}

unfoldable default_works : Outcome (Unit {0})
default_works = do let flipper = default; assert_true (not (get flipper))

unfoldable it_works : Outcome (Unit {0})
it_works = do
  let flipper = new false
  assert_true (not (get flipper))
  let flipped = flip flipper
  assert_true (get flipped)

tests_pass : (default_works ≡ done tt) × (it_works ≡ done tt)
unfolding default_works it_works new default flip get
tests_pass = (refl, refl)
