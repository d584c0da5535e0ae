-- ===== src/Chain/Rawdb/Lookup.antt =====
-- chain/rawdb/indexes.go: where in which block a transaction stands, and the readers of blocks of
-- accessors_chain.go. A call of `logrus.Fatal` ends the process.
pub mod Found
use relayer.Base.{
  ℕ, suc, ◌==◌, List, [], ◌∷◌, Bytes, bytes_discrete, length, get_elem?, Option, none, some, ite,
  Outcome, ok, panic, fatal, index_out_of_range, if◌then◌else◌, ◌>>=◌,
}
use relayer.Chain.Header.{zero_hash}
use relayer.Chain.Transaction.{Transaction}
use relayer.Chain.Block.{Block}
use relayer.Chain.Rawdb.Schema.{tx_lookup_key}
use relayer.Chain.Rawdb.Accessors.{
  Database, Codec, encoded, decoded, put_logged, get_data, read_body_rlp, write_body_rlp,
}

pub record TxLookupEntry : Type 0 where
  pub block_hash : Bytes
  pub block_index : ℕ
  pub index : ℕ

-- what is returned where there is no entry
abbrev pub no_entry : TxLookupEntry
no_entry = record { block_hash = zero_hash; block_index = 0; index = 0 }

unfoldable pub or_no_entry : Option TxLookupEntry → TxLookupEntry
or_no_entry none = no_entry
or_no_entry (some entry) = entry

module _ (d : Database) {Request : Type 0} (entries : Codec TxLookupEntry)
    (blocks : Codec (Block Request)) where
  unfoldable pub read_block : Bytes → ℕ → d.State → Outcome (Block Request)
  read_block hash number s = read_body_rlp d hash number s >>= λ bytes.
      elim (decoded blocks bytes) [ none ↦ panic fatal | some block ↦ ok block ]

  unfoldable pub write_block : Bytes → ℕ → Block Request → d.State → Outcome d.State
  write_block hash number block s = elim (blocks.encode block) [
    | none ↦ panic fatal
    | some bytes ↦ ok (write_body_rlp d hash number bytes s)
  ]

  -- the loop, from the index of the next transaction on; an entry that cannot be encoded is logged,
  -- and written without bytes
  unfoldable pub write_entries :
      (Transaction Request → Bytes)
      → Block Request
      → ℕ
      → List (Transaction Request)
      → d.State
      → d.State
  write_entries tx_hash block i [] s = s
  write_entries tx_hash block i (tx ∷ txs) s = write_entries tx_hash block (suc i) txs (
      put_logged d (tx_lookup_key (tx_hash tx))
        (encoded entries
          (record { block_hash = block.hash; block_index = block.number; index = i }))
        s)

  unfoldable pub write_tx_lookup_entries :
      (Transaction Request → Bytes) → Block Request → d.State → d.State
  write_tx_lookup_entries tx_hash block = write_entries tx_hash block 0 block.transactions

  unfoldable pub read_tx_lookup_bytes_entry : Bytes → d.State → TxLookupEntry
  read_tx_lookup_bytes_entry key s = or_no_entry (decoded entries (get_data d key s))

  unfoldable pub read_tx_lookup_entry : Bytes → d.State → TxLookupEntry
  read_tx_lookup_entry hash s = or_no_entry (decoded entries (get_data d (tx_lookup_key hash) s))

  -- `Transactions[txIndex]`, with the entry
  unfoldable pub at_entry :
      TxLookupEntry → Block Request → Outcome (Option (Transaction Request × TxLookupEntry))
  at_entry entry block = elim (get_elem? block.transactions entry.index) [
    | none ↦ panic index_out_of_range
    | some tx ↦ ok (some (tx, entry))
  ]

  -- with the entry; none for nil
  unfoldable pub read_at :
      TxLookupEntry → d.State → Outcome (Option (Transaction Request × TxLookupEntry))
  read_at entry s =
      ite (bytes_discrete entry.block_hash zero_hash) (ok none)
        (read_block entry.block_hash entry.block_index s >>= at_entry entry)

  unfoldable pub read_transaction :
      Bytes → d.State → Outcome (Option (Transaction Request × TxLookupEntry))
  read_transaction hash s = read_at (read_tx_lookup_entry hash s) s
