-- ===== src/Contracts/Flipper.antt =====
-- contracts/flipper/src/lib.rs: a contract that stores one Boolean and flips it.
mod Runs
mod Tests
mod UnitTests
use crain.Prelude.{Bool, true, false, not, List, [], ◌∷◌}

pub record Flipper : Type 0 where
  pub value : Bool

pub data Message : Type 0 where
  flip_it get_it : Message

unfoldable pub new : Bool → Flipper
new init_value = record { value = init_value }

-- `Default::default()` of a Boolean is `false`.
unfoldable pub default : Flipper
default = new false

unfoldable pub flip : Flipper → Flipper
flip s = record s { value = not s.value }

unfoldable pub get : Flipper → Bool
get s = s.value

-- A sequence of calls, with what the calls of `get` return.
unfoldable pub run : List Message → Flipper → List Bool × Flipper
run [] s = ([], s)
run (flip_it ∷ later) s = run later (flip s)
run (get_it ∷ later) s = let (values, s') = run later s in (get s ∷ values, s')
