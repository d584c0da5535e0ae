-- ===== src/Chain/Rawdb/Accessors.antt =====
-- chain/rawdb/accessors_chain.go, over the interfaces of chain/rawdb/interfaces.go. An error of the
-- store is logged, where it is not ignored. `rlp` and `BytesToHash` of go-ethereum are parameters.
use relayer.Base.{
  ℕ, ◌==◌, [], Bytes, length, Option, none, some, Bool, ◌&&◌, if◌then◌else◌, Outcome, ok, panic,
  database_error,
}
use relayer.Base.Int.{ℤ}
use relayer.Chain.Header.{Header, zero_hash}
use relayer.Chain.Rawdb.Schema.{
  uint, encode_block_number, header_key, header_td_key, header_hash_key, header_number_key,
  block_body_key, block_receipts_key, head_header_key, head_block_key, head_fast_block_key,
}

-- `DatabaseReader`, `DatabaseWriter` and `DatabaseDeleter`; the Boolean is true for a nil error.
pub record Database : Type 1 where
  pub State : Type 0
  pub has : Bytes → State → Bool × Bool
  pub get : Bytes → State → Bytes × Bool
  pub put : Bytes → Bytes → State → State × Bool
  pub delete : Bytes → State → State × Bool

-- `rlp.EncodeToBytes` and `rlp.Decode` at a type; `none` is an error.
pub record Codec (A : Type 0) : Type 0 where
  pub encode : A → Option Bytes
  pub decode : Bytes → Option A

-- The bytes that `EncodeToBytes` returns, none with an error.
unfoldable pub encoded : {A : Type 0} → Codec A → A → Bytes
encoded codec a = elim (codec.encode a) [ some data_ ↦ data_ | none ↦ [] ]

-- What the readers do with the data that they get: nothing is there without data.
unfoldable pub decoded : {A : Type 0} → Codec A → Bytes → Option A
decoded codec data_ = if length data_ == 0 then none else codec.decode data_

module _ (d : Database) where
  -- `if err := db.Put(k, v); err != nil { logrus.Error(...) }`
  abbrev pub put_logged : Bytes → Bytes → d.State → d.State
  put_logged k v s = (d.put k v s).0

  abbrev pub delete_logged : Bytes → d.State → d.State
  delete_logged k s = (d.delete k s).0

  -- `data, _ := db.Get(k)`
  abbrev pub get_data : Bytes → d.State → Bytes
  get_data k s = (d.get k s).0

  abbrev pub has_key : Bytes → d.State → Bool
  has_key k s = (d.has k s).0 && (d.has k s).1

  unfoldable pub read_header_number : Bytes → d.State → Option ℕ
  read_header_number hash s =
      let data_ = get_data (header_number_key hash) s in
      if length data_ == 8 then some (uint data_) else none

  unfoldable pub write_canonical_hash : Bytes → ℕ → d.State → d.State
  write_canonical_hash hash number = put_logged (header_hash_key number) hash

  unfoldable pub delete_canonical_hash : ℕ → d.State → d.State
  delete_canonical_hash number = delete_logged (header_hash_key number)

  unfoldable pub write_head_header_hash : Bytes → d.State → d.State
  write_head_header_hash hash = put_logged head_header_key hash

  unfoldable pub write_head_block_hash : Bytes → d.State → d.State
  write_head_block_hash hash = put_logged head_block_key hash

  unfoldable pub write_head_fast_block_hash : Bytes → d.State → d.State
  write_head_fast_block_hash hash = put_logged head_fast_block_key hash

  unfoldable pub read_header_rlp : Bytes → ℕ → d.State → Bytes
  read_header_rlp hash number = get_data (header_key number hash)

  unfoldable pub has_header : Bytes → ℕ → d.State → Bool
  has_header hash number = has_key (header_key number hash)

  unfoldable pub delete_header : Bytes → ℕ → d.State → d.State
  delete_header hash number s =
      let s₁ = delete_logged (header_key number hash) s in delete_logged (header_number_key hash) s₁

  unfoldable pub read_body_rlp : Bytes → ℕ → d.State → Outcome Bytes
  read_body_rlp hash number s =
      let r = d.get (block_body_key number hash) s in if r.1 then ok r.0 else panic database_error

  unfoldable pub write_body_rlp : Bytes → ℕ → Bytes → d.State → d.State
  write_body_rlp hash number rlp = put_logged (block_body_key number hash) rlp

  unfoldable pub has_body : Bytes → ℕ → d.State → Bool
  has_body hash number = has_key (block_body_key number hash)

  unfoldable pub write_body_bytes : Bytes → ℕ → Bytes → d.State → d.State
  write_body_bytes hash number data_ = write_body_rlp hash number data_

  unfoldable pub delete_body : Bytes → ℕ → d.State → d.State
  delete_body hash number = delete_logged (block_body_key number hash)

  unfoldable pub delete_td : Bytes → ℕ → d.State → d.State
  delete_td hash number = delete_logged (header_td_key number hash)

  unfoldable pub delete_receipts : Bytes → ℕ → d.State → d.State
  delete_receipts hash number = delete_logged (block_receipts_key number hash)

  module _ (bytes_to_hash : Bytes → Bytes) where
    -- what the readers of hashes do with the data that they get
    abbrev pub hash_or_zero : Bytes → Bytes
    hash_or_zero data_ = if length data_ == 0 then zero_hash else bytes_to_hash data_

    unfoldable pub read_canonical_hash : ℕ → d.State → Bytes
    read_canonical_hash number s = hash_or_zero (get_data (header_hash_key number) s)

    unfoldable pub read_head_header_hash : d.State → Bytes
    read_head_header_hash s = hash_or_zero (get_data head_header_key s)

    unfoldable pub read_head_block_hash : d.State → Bytes
    read_head_block_hash s = hash_or_zero (get_data head_block_key s)

    unfoldable pub read_head_fast_block_hash : d.State → Bytes
    read_head_fast_block_hash s = hash_or_zero (get_data head_fast_block_key s)

  module _ (codec : Codec Header) where
    unfoldable pub read_header : Bytes → ℕ → d.State → Option Header
    read_header hash number s = decoded codec (read_header_rlp hash number s)

    -- The header stands under the hash of its parent.
    unfoldable pub write_header : Header → d.State → d.State
    write_header h s =
        let s₁ = put_logged (header_number_key h.parent_hash) (encode_block_number h.number) s in
        put_logged (header_key h.number h.parent_hash) (encoded codec h) s₁

  module _ (codec : Codec ℤ) where
    unfoldable pub read_td : Bytes → ℕ → d.State → Option ℤ
    read_td hash number s = decoded codec (get_data (header_td_key number hash) s)

    unfoldable pub write_td : Bytes → ℕ → ℤ → d.State → d.State
    write_td hash number td = put_logged (header_td_key number hash) (encoded codec td)
