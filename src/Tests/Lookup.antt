-- ===== src/Tests/Lookup.antt =====
-- A block of two transactions in the store; a request is a number, and the hash of a transaction is
-- that of its nonce.
use relayer.Base.{
  ℕ_discrete, ℕ, zero, suc, List, [], ◌∷◌, Bytes, zeros, get_elem?, bytes_discrete, none, some, ok,
  panic, index_out_of_range, ◌≡◌, ◌≢◌, refl, arith,
}
use relayer.Base.Int.{pos}
use relayer.Base.Dict
use relayer.Chain.Header.{zero_hash, new_header, create_new_epoch}
use relayer.Chain.Transaction.{Transaction}
use relayer.Chain.Merkle.{
  new_merkle_node, leaves, pair_up, build_levels, new_merkle_tree, append_last, pad, first_node,
  node_data,
}
use relayer.Chain.Block.{
  Block, same_number, equal_epochs, equal, hash_transactions, new_block, new_genesis_block,
}
use relayer.Chain.Rawdb.Schema.{big_endian, encode_block_number, tx_lookup_key, block_body_key}
use relayer.Chain.Rawdb.Accessors.{Codec, encoded, decoded, read_body_rlp, write_body_rlp}
use relayer.Chain.Rawdb.Lookup.{
  TxLookupEntry, or_no_entry, read_block, write_block, write_entries, write_tx_lookup_entries,
  read_tx_lookup_bytes_entry, read_tx_lookup_entry, at_entry, read_at, read_transaction,
}
use relayer.Chain.Rawdb.Lookup.Found.{entry_of, read_transaction_lem}
use relayer.Tests.Rawdb.{map_store, map_store-IsStore}

program : Unit {0}
unfolding new_header create_new_epoch new_merkle_node leaves pair_up build_levels new_merkle_tree
    append_last pad first_node node_data same_number equal_epochs equal hash_transactions new_block
    new_genesis_block big_endian encode_block_number tx_lookup_key block_body_key encoded decoded
    read_body_rlp write_body_rlp or_no_entry read_block write_block write_entries
    write_tx_lookup_entries read_tx_lookup_bytes_entry read_tx_lookup_entry at_entry read_at
    read_transaction bytes_discrete ℕ_discrete Dict.get Dict.put Dict.delete
program = tt

abbrev tx : ℕ → Transaction ℕ
tx nonce = record { chain_id = 1; origin_data = 0; nonce = nonce }

abbrev tx_hash : Transaction ℕ → Bytes
tx_hash t = t.nonce ∷ zeros 31

abbrev block : Block ℕ
block = record {
  number = 3;
  hash = 1 ∷ zeros 31;
  transactions = tx 4 ∷ tx 5 ∷ [];
  signature = 2 ∷ [];
  leader = [];
  chan_id = pos 0;
  header = none;
}

-- codecs that know only these values
abbrev blocks : Codec (Block ℕ)
blocks = record { encode = λ b. some (1 ∷ []); decode = λ bytes. some block }

abbrev entries : Codec TxLookupEntry
entries = record {
  encode = λ e. some (e.index ∷ []);
  decode = λ bytes. elim bytes [ i ∷ [] ↦ some (entry_of block i) | _ ↦ none ];
}

abbrev written : List (Bytes × Bytes)
written = (block_body_key 3 block.hash, 1 ∷ []) ∷ []

writes : write_block map_store entries blocks block.hash 3 block [] ≡ ok written
unfolding program
writes = refl

-- A hash without an entry gives nil.
not_found : read_transaction map_store entries blocks (zeros 32) written ≡ ok none
unfolding program
not_found = refl

-- A block without transactions cannot be made.
no_transactions :
    new_block (λ bytes. bytes) (λ bytes. bytes) tx_hash (new_header create_new_epoch) 1 [] (2 ∷ [])
    ≡ panic index_out_of_range
unfolding program
no_transactions = refl

-- The place of a transaction of the block, by the number in its hash.
at_most_one :
    (j : ℕ) (t : Transaction ℕ)
    → get_elem? block.transactions j ≡ some t
    → tx_hash (tx 5) ≡ tx_hash t
    → 1 ≡ j
at_most_one zero t e same = absurd (cc)
at_most_one (suc zero) t e same = refl
at_most_one (suc (suc j)) t e same = absurd (cc)

nonzero : block.hash ≢ zero_hash
nonzero e = absurd (cc)

read_transaction_lem_example :
    read_transaction map_store entries blocks
      (tx_hash (tx 5))
      (write_tx_lookup_entries map_store entries blocks tx_hash block written)
    ≡ ok (some (tx 5, entry_of block 1))
read_transaction_lem_example =
    read_transaction_lem map_store map_store-IsStore entries blocks tx_hash block 1 (tx 5) []
      written (record { first = 1; rest = []; encodes = refl; decodes = refl })
      (record { first = 1; rest = []; encodes = refl; decodes = refl }) refl at_most_one (λ t. refl)
      refl (omega arith) nonzero writes
