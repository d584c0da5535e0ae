-- ===== src/P2p.antt =====
-- libp2p: how the nodes choose one of them for an event, and what they report of each other.
pub mod Leader
pub mod Uptime
pub mod Schedule
