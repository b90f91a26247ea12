-- ===== src/Runtime/Deposit.antt =====
-- The storage deposit of runtime/src/lib.rs.
use crain.Prelude.{ℕ, ◌+◌, ◌*◌, ◌/◌, ◌<◌, ◌≡◌, ap, ◌∙◌, done, arith}
use crain.Prelude.Machine.{Build, add-eq_of_lt, mul-eq_of_lt, div-eq_of_pos, u32_mod, u128_mod}
use crain.Runtime.{unit, milliunit, deposit, deposit_per_item, deposit_per_byte}

deposit_exact :
    (b : Build) (items bytes : ℕ)
    → items < u32_mod
    → bytes < u32_mod
    → deposit b items bytes ≡ done (items * (unit / 10) + bytes * (milliunit / 200))
unfolding deposit
deposit_exact b items bytes h k =
    rw
      (
        mul-eq_of_lt u128_mod b items unit (omega arith),
        mul-eq_of_lt u128_mod b 5 milliunit (omega arith),
        div-eq_of_pos (5 * milliunit) 100 (omega arith),
        mul-eq_of_lt u128_mod b bytes 50000000 (omega arith),
        add-eq_of_lt u128_mod b (items * unit) (bytes * 50000000) (omega arith),
        div-eq_of_pos (items * unit + bytes * 50000000) 10 (omega arith),
      )
      (ap done (omega arith))

-- For u32 numbers of items and bytes `deposit` returns in every build, and what it returns is the
-- number of items times `DepositPerItem` and the number of bytes times `DepositPerByte`, with
-- nothing lost to rounding; both prices are positive.
deposit_adds_up :
    (b : Build) (items bytes : ℕ)
    → items < u32_mod
    → bytes < u32_mod
    → (per_item per_byte : ℕ) × (deposit_per_item b ≡ done per_item)
      × (deposit_per_byte b ≡ done per_byte)
      × (deposit b items bytes ≡ done (items * per_item + bytes * per_byte))
      × (0 < per_item)
      × (0 < per_byte)
unfolding deposit_per_item deposit_per_byte
deposit_adds_up b items bytes h k = (
  unit / 10,
  milliunit / 200,
  deposit_exact b 1 0 (omega arith) (omega arith) ∙ ap done (omega arith),
  deposit_exact b 0 1 (omega arith) (omega arith) ∙ ap done (omega arith),
  deposit_exact b items bytes h k,
  omega arith,
  omega arith,
)
