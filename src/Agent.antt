-- ===== src/Agent.antt =====
-- services/agent-orchestrator: one payment run, from the instruction to the captured order.
pub mod Step
pub mod Run
pub mod Price
pub mod Checkout
pub mod Discovery
pub mod CardGateway
pub mod Pipeline
