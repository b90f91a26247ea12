-- ===== src/Contracts.antt =====
-- The ink! contracts of contracts/.
pub mod Erc20
pub mod Moneybag
pub mod Flipper
