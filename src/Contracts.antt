-- ===== src/Contracts.antt =====
-- packages/contracts: the conventions and encodings that every service shares.
pub mod Types
pub mod Validation
pub mod Mandate
pub mod Json
pub mod X402
