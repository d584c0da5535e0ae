-- ===== src/Common.antt =====
-- Package common.
pub mod Bytes32
