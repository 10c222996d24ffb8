-- ===== src/Graph.antt =====
-- The tree of recent blocks (core/crates/client-evm/src/kernel/blocks_graph.rs).
pub mod Types
pub mod Admission
pub mod Logs
pub mod Walks
pub mod Fold
pub mod Finality
pub mod Queries
pub mod Reachable
pub mod Examples
pub mod Runs
