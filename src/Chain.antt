-- ===== src/Chain.antt =====
-- services/chain-gateway: what it reads from the chain and how it judges it.
pub mod Settlement
