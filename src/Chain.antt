-- ===== src/Chain.antt =====
-- The block chain of the relayer: package chain.
pub mod Merkle
pub mod Header
pub mod Rawdb
pub mod Pool
pub mod Transaction
pub mod Block
pub mod Storage
