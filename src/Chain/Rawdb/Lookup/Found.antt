-- ===== src/Chain/Rawdb/Lookup/Found.antt =====
-- That chain/rawdb finds the transactions of a block that it has written.
use relayer.Base.{
  ℕ, zero, suc, ◌+◌, ◌^◌, ◌<◌, List, [], ◌∷◌, Bytes, length, get_elem?, drop, some, ok, if_neg,
  bytes_discrete, ◌≡◌, ◌≢◌, refl, ap, ◌∙◌, subst, arith, true,
}
use relayer.Chain.Header.{zero_hash}
use relayer.Chain.Transaction.{Transaction}
use relayer.Chain.Block.{Block}
use relayer.Chain.Rawdb.Schema.{tx_lookup_key, block_body_key}
use relayer.Chain.Rawdb.Entry.{body, tx_lookup, key, key_injective}
use relayer.Chain.Rawdb.Accessors.{Database, Codec, encoded, decoded, read_body_rlp, write_body_rlp}
use relayer.Chain.Rawdb.RoundTrips.{IsStore, ReadsBack, decoded-encoded_one}
use relayer.Chain.Rawdb.Lookup.{
  TxLookupEntry, or_no_entry, read_block, write_block, write_entries, write_tx_lookup_entries,
  read_tx_lookup_entry, at_entry, read_transaction, read_at,
}

-- `TxLookupEntry` of a block's transaction
abbrev pub entry_of : {Request : Type 0} → Block Request → ℕ → TxLookupEntry
entry_of block i = record { block_hash = block.hash; block_index = block.number; index = i }

module _ (d : Database) (store : IsStore d) {Request : Type 0} (entries : Codec TxLookupEntry)
    (blocks : Codec (Block Request)) (tx_hash : Transaction Request → Bytes) where
  -- The writing of entries leaves what is under the other keys.
  write_entries-others :
      (block : Block Request) (i : ℕ) (txs : List (Transaction Request)) (k : Bytes) (s : d.State)
      → ((j : ℕ) (tx : Transaction Request)
          → get_elem? txs j ≡ some tx
          → k ≢ tx_lookup_key (tx_hash tx))
      → d.get k (write_entries d entries blocks tx_hash block i txs s) ≡ d.get k s
  unfolding write_entries
  write_entries-others block i [] k s apart = refl
  write_entries-others block i (tx ∷ txs) k s apart =
      write_entries-others block (suc i) txs k _ (λ j t e. apart (suc j) t e)
      ∙ store.get-put_other k (tx_lookup_key (tx_hash tx)) _ s (apart 0 tx refl)

  lookup-tail : (a b : Bytes) → tx_lookup_key a ≡ tx_lookup_key b → a ≡ b
  unfolding tx_lookup_key
  lookup-tail a b e = ap (drop 1) e

  -- What is found under the hash of a transaction, if no other has it.
  write_entries-found :
      (block : Block Request) (i j : ℕ) (txs : List (Transaction Request))
      (tx : Transaction Request) (s : d.State)
      → get_elem? txs j ≡ some tx
      → ((j' : ℕ) (tx' : Transaction Request)
          → get_elem? txs j' ≡ some tx'
          → tx_hash tx ≡ tx_hash tx'
          → j ≡ j')
      → d.get (tx_lookup_key (tx_hash tx)) (write_entries d entries blocks tx_hash block i txs s)
        ≡ (encoded entries (entry_of block (i + j)), true)
  unfolding write_entries
  write_entries-found block i j [] tx s e unique = absurd (cc)
  write_entries-found block i zero (t ∷ txs) tx s e unique =
      let same : t ≡ tx = cc e in
      write_entries-others block (suc i) txs (tx_lookup_key (tx_hash tx)) _
        (λ j u there h. absurd (omega (arith, unique (suc j) u there (lookup-tail _ _ h))))
      ∙ subst
          (λ u.
            d.get (tx_lookup_key (tx_hash u))
              (d.put (tx_lookup_key (tx_hash t)) (encoded entries (entry_of block i)) s).0
            ≡ (encoded entries (entry_of block (i + 0)), true))
          same
          (subst
            (λ n.
              d.get (tx_lookup_key (tx_hash t))
                (d.put (tx_lookup_key (tx_hash t)) (encoded entries (entry_of block i)) s).0
              ≡ (encoded entries (entry_of block n), true))
            (omega arith) (store.get-put _ _ s))
  write_entries-found block i (suc j) (t ∷ txs) tx s e unique =
      write_entries-found block (suc i) j txs tx _ e
        (λ j' u there h. omega (arith, unique (suc j') u there h))
      ∙ ap (λ n. (encoded entries (entry_of block n), true)) (omega arith)

  read_written :
      (block : Block Request) (bytes : Bytes) (s written : d.State)
      → blocks.encode block ≡ some bytes
      → write_block d entries blocks block.hash block.number block s ≡ ok written
      → d.get (block_body_key block.number block.hash) written ≡ (bytes, true)
  unfolding write_block write_body_rlp
  read_written block bytes s written e wrote =
      let same : (d.put (block_body_key block.number block.hash) bytes s).0 ≡ written =
        ground (arith, e, wrote) in
      subst (λ t. d.get (block_body_key block.number block.hash) t ≡ (bytes, true)) same
        (store.get-put _ bytes s)

  read_block_lem :
      (block : Block Request) (r : ReadsBack blocks block) (s : d.State)
      → d.get (block_body_key block.number block.hash) s ≡ (r.first ∷ r.rest, true)
      → read_block d entries blocks block.hash block.number s ≡ ok block
  unfolding read_block read_body_rlp
  read_block_lem block r s there =
      let (same, back) = decoded-encoded_one blocks block r in
      let back' : decoded blocks (r.first ∷ r.rest) ≡ some block =
        subst (λ bs. decoded blocks bs ≡ some block) same back in
      ground (arith, there, back')

  -- After a block was written under its hash and number, and then the entries of its transactions,
  -- each of its transactions is found by its hash, with the block's hash and number and its place in
  -- the block. What is encoded of the block and of the entry is read back, no two transactions of the block have the
  -- same hash, hashes have 32 bytes, the number fits 64 bits, and the block's hash is not zero.
  pub read_transaction_lem :
      (block : Block Request) (i : ℕ) (tx : Transaction Request) (s written : d.State)
      → ReadsBack blocks block
      → ReadsBack entries (entry_of block i)
      → get_elem? block.transactions i ≡ some tx
      → ((j : ℕ) (t : Transaction Request)
          → get_elem? block.transactions j ≡ some t
          → tx_hash tx ≡ tx_hash t
          → i ≡ j)
      → ((t : Transaction Request) → length (tx_hash t) ≡ 32)
      → length block.hash ≡ 32
      → block.number < 2 ^ 64
      → block.hash ≢ zero_hash
      → write_block d entries blocks block.hash block.number block s ≡ ok written
      → read_transaction d entries blocks
          (tx_hash tx)
          (write_tx_lookup_entries d entries blocks tx_hash block written)
        ≡ ok (some (tx, entry_of block i))
  unfolding read_transaction write_tx_lookup_entries read_tx_lookup_entry read_at at_entry
      or_no_entry key
  read_transaction_lem block i tx s written r re there unique hashes full small nonzero wrote =
      let after = write_entries d entries blocks tx_hash block 0 block.transactions written in
      let start : 0 + i ≡ i = omega arith in
      let kept =
        write_entries-others block 0 block.transactions (block_body_key block.number block.hash)
          written
          (λ j t f h. absurd (
            cc (
              key_injective (body block.number block.hash) (tx_lookup (tx_hash t)) (small, full)
                (hashes t) h))) in
      let found =
        ap (λ r. or_no_entry (decoded entries r.0))
          (write_entries-found block 0 i block.transactions tx written there unique)
        ∙ ap (λ n. or_no_entry (decoded entries (encoded entries (entry_of block n)))) start
        ∙ ap or_no_entry (decoded-encoded_one entries (entry_of block i) re).1 in
      ap (λ r. read_at d entries blocks r after) found
      ∙ if_neg (bytes_discrete block.hash zero_hash) nonzero _ _
      ∙ rw
          (
            read_block_lem block r after
                (kept ∙ read_written block (r.first ∷ r.rest) s written r.encodes wrote),
            at_entry,
            there,
          )
          refl
