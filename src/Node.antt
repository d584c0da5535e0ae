-- ===== src/Node.antt =====
-- The bridge node: what node/bridge keeps between protocol runs.
pub mod QuitHandlers
pub mod Setup
pub mod Epoch
pub mod Distribute
pub mod Requests
pub mod Contracts
pub mod Start
pub mod Run
