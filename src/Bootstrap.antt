-- ===== src/Bootstrap.antt =====
-- The bootstrap of a chain (core/crates/client-evm/src/bootstrap).
pub mod Window
pub mod Requests
pub mod Machine
pub mod Activation
pub mod Examples
