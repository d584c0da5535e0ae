-- ===== src/Chain/Pool.antt =====
-- chain/tx_list.go, chain/tx_pool.go and chain/transaction.go: the pool of the events that wait to
-- be put into a block.
pub mod Heap
pub mod TxMap
pub mod TxList
pub mod TxPool
