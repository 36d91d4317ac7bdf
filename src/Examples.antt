-- ===== src/Examples.antt =====
-- The theorems at concrete inputs.
pub mod Store
pub mod Signatures
pub mod Payments
pub mod Runs
pub mod Commitments
pub mod Drift
pub mod Inputs
