-- ===== src/Market.antt =====
-- The registries of verified pools and tokens (core/crates/client-evm/src/kernel).
pub mod Metadata
pub mod Registries
pub mod Results
pub mod Examples
