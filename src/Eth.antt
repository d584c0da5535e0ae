-- ===== src/Eth.antt =====
-- The clients of the external chains: package eth.
pub mod LogCache
pub mod Client
pub mod Methods
pub mod Watchers
pub mod Clients
