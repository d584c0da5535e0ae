-- ===== src/Chain/Rawdb.antt =====
-- chain/rawdb: what a node keeps in its key-value store, under which keys.
pub mod Schema
pub mod Entry
pub mod Accessors
pub mod RoundTrips
pub mod Lookup
