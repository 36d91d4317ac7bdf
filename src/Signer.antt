-- ===== src/Signer.antt =====
-- services/signer-service: the only holder of the signing key.
pub mod Der
pub mod Spki
pub mod Rail
pub mod Pipeline
pub mod Sign
