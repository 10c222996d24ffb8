-- ===== src/Pools.antt =====
-- Pools (core/crates/client-evm/src/pool_state.rs, pool_log.rs): their identities, their on-chain
-- state, and the log events that move it.
pub mod Keys
pub mod Chains
pub mod Events
pub mod Fold
pub mod Bounds
pub mod Accounts
pub mod Examples
