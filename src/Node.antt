-- ===== src/Node.antt =====
-- The node binary, node/src.
pub mod Mining
pub mod Objects
pub mod Steps
pub mod Service
pub mod ChainSpec
pub mod Command
pub mod Benchmark
pub mod Rpc
