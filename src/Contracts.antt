-- ===== src/Contracts.antt =====
-- packages/contracts/src: the shared contracts.
pub mod Json
pub mod Canonical
pub mod Errors
pub mod Envelopes
pub mod Registry
pub mod Compatibility
mod Tests
