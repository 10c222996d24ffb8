-- ===== src/Requests.antt =====
-- Requests in flight (core/crates/client-evm/src): their ids, their expiry and their retries.
pub mod Tick
pub mod Tracking
pub mod Pending
pub mod Retry
pub mod Ids
pub mod Entered
pub mod Retried
pub mod Held
pub mod Counts
pub mod Listed
pub mod Rounds
pub mod Lossless
pub mod Retained
pub mod Examples
