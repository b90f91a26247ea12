-- ===== src/Difficulty.antt =====
-- pallets/difficulty/src/lib.rs: the pallet that sets the proof-of-work difficulty whenever a
-- block's timestamp is set. `Moment` is the runtime's u64, so the conversions to u128 keep a
-- timestamp as it is. Storage is a record; a call returns the new storage, or panics.
mod Entries
mod Retarget
pub mod Loops
pub mod Formula
pub mod Totality
pub mod Adjust
pub mod Response
pub mod History
pub mod Climb
pub mod Drift
pub mod Stall
mod Tests
unfoldable pub use Entries.*
unfoldable pub use Retarget.*
