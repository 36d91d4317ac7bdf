-- ===== src/Ledger.antt =====
-- services/ledger-service: the append-only record of intents, decisions and settlements.
pub mod State
pub mod Intents
pub mod Outcomes
pub mod Lifecycle
pub mod Window
pub mod Storage
pub mod Service
