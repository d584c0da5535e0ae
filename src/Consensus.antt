-- ===== src/Consensus.antt =====
-- Agreement on one bridge event: packages consensus and consensus/session.
pub mod Mask
pub mod Message
pub mod Session
pub mod Topics
