-- ===== src/Pow.antt =====
-- pow/src/lib.rs: the proof-of-work algorithm. The hash functions, the SCALE codec and the 32-byte
-- hash type come from other crates: they are the fields of `Crypto`, with what the code relies on.
pub mod Crypto
mod Algorithm
pub mod Target
pub mod Verify
pub mod Tie
pub mod Tests
unfoldable pub use Algorithm.*
