-- ===== src/Policy.antt =====
-- services/policy-service: the checks before a signature, and the routes that ask for one.
pub mod Checks
pub mod Signing
pub mod Answers
pub mod Approval
pub mod Payment
pub mod Resolve
pub mod Drift
pub mod Matcher
