-- ===== src/Chain/Rawdb/Schema.antt =====
-- chain/rawdb/schema.go: the prefixes and the keys that are made of them. A `common.Hash` is the
-- list of its 32 bytes, a number of Go's type uint64 or uint32 a natural number, and a `big.Int`
-- here is never negative. An `append` to one of the prefixes copies it, since it is full.
use relayer.Base.{ℕ, zero, suc, ◌+◌, ◌*◌, ◌/◌, ◌%◌, [], ◌∷◌, ◌++◌, Bytes}

-- `binary.BigEndian.PutUint64` and its like: the lowest `w` bytes, the highest of them first
unfoldable pub big_endian : ℕ → ℕ → Bytes
big_endian zero n = []
big_endian (suc w) n = big_endian w (n / 256) ++ (n % 256 ∷ [])

-- `binary.BigEndian.Uint64`
unfoldable pub uint_from : ℕ → Bytes → ℕ
uint_from n [] = n
uint_from n (b ∷ bs) = uint_from (n * 256 + b) bs

abbrev pub uint : Bytes → ℕ
uint = uint_from 0

-- `big.Int.Bytes`, no byte for zero; the first argument bounds their number, n itself is enough
unfoldable pub int_bytes : ℕ → ℕ → Bytes
int_bytes zero n = []
int_bytes (suc w) zero = []
int_bytes (suc w) (suc n) = int_bytes w (suc n / 256) ++ (suc n % 256 ∷ [])

abbrev pub head_header_key : Bytes
head_header_key = 76 ∷ 97 ∷ 115 ∷ 116 ∷ 72 ∷ 101 ∷ 97 ∷ 100 ∷ 101 ∷ 114 ∷ []

abbrev pub head_block_key : Bytes
head_block_key = 76 ∷ 97 ∷ 115 ∷ 116 ∷ 66 ∷ 108 ∷ 111 ∷ 99 ∷ 107 ∷ []

abbrev pub head_fast_block_key : Bytes
head_fast_block_key = 76 ∷ 97 ∷ 115 ∷ 116 ∷ 70 ∷ 97 ∷ 115 ∷ 116 ∷ []

abbrev pub header_prefix : Bytes
header_prefix = 104 ∷ []

abbrev pub header_td_suffix : Bytes
header_td_suffix = 116 ∷ []

abbrev pub header_hash_suffix : Bytes
header_hash_suffix = 110 ∷ []

abbrev pub header_number_prefix : Bytes
header_number_prefix = 72 ∷ []

abbrev pub block_body_prefix : Bytes
block_body_prefix = 98 ∷ []

abbrev pub block_receipts_prefix : Bytes
block_receipts_prefix = 114 ∷ []

abbrev pub tx_lookup_prefix : Bytes
tx_lookup_prefix = 108 ∷ []

abbrev pub cx_lookup_prefix : Bytes
cx_lookup_prefix = 99 ∷ 120 ∷ []

abbrev pub shard_state_prefix : Bytes
shard_state_prefix = 115 ∷ 115 ∷ []

unfoldable pub encode_block_number : ℕ → Bytes
encode_block_number number = big_endian 8 number

unfoldable pub header_key : ℕ → Bytes → Bytes
header_key number hash = (header_prefix ++ encode_block_number number) ++ hash

unfoldable pub header_td_key : ℕ → Bytes → Bytes
header_td_key number hash = header_key number hash ++ header_td_suffix

unfoldable pub header_hash_key : ℕ → Bytes
header_hash_key number = (header_prefix ++ encode_block_number number) ++ header_hash_suffix

unfoldable pub header_number_key : Bytes → Bytes
header_number_key hash = header_number_prefix ++ hash

unfoldable pub block_body_key : ℕ → Bytes → Bytes
block_body_key number hash = (block_body_prefix ++ encode_block_number number) ++ hash

unfoldable pub block_receipts_key : ℕ → Bytes → Bytes
block_receipts_key number hash = (block_receipts_prefix ++ encode_block_number number) ++ hash

unfoldable pub tx_lookup_key : Bytes → Bytes
tx_lookup_key hash = tx_lookup_prefix ++ hash

unfoldable pub cx_lookup_key : Bytes → Bytes
cx_lookup_key hash = cx_lookup_prefix ++ hash

unfoldable pub shard_state_key : ℕ → Bytes
shard_state_key epoch = shard_state_prefix ++ int_bytes epoch epoch
