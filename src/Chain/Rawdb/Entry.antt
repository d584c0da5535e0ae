-- ===== src/Chain/Rawdb/Entry.antt =====
-- The entries that chain/rawdb keeps for blocks and transactions, and that no two of them share a
-- key: a decoder finds from a key which entry it stands for.
use native.Mathlib.Nat.{pow-suc}
use relayer.Base.{
  ℕ, zero, suc, ◌+◌, ◌*◌, ◌/◌, ◌%◌, ◌^◌, ◌<◌, ◌==◌, if◌then◌else◌, [], ◌∷◌, ◌++◌, Bytes, length,
  take, drop, take-append, drop-append, length-append, Option, none, some, ◌≡◌, refl, ap, sym, ◌∙◌,
  arith, subst,
}
use relayer.Chain.Rawdb.Schema.{
  big_endian, uint_from, uint, encode_block_number, header_key, header_td_key, header_hash_key,
  header_number_key, block_body_key, block_receipts_key, tx_lookup_key, cx_lookup_key,
  shard_state_key, int_bytes, head_header_key, head_block_key, head_fast_block_key,
}

pub data Entry : Type 0 where
  canonical_hash : ℕ → Entry
  header body receipts total_difficulty : ℕ → Bytes → Entry
  header_number tx_lookup cx_lookup : Bytes → Entry
  shard_state : ℕ → Entry
  head_header head_block head_fast_block : Entry

unfoldable pub key : Entry → Bytes
key (canonical_hash number) = header_hash_key number
key (header number hash) = header_key number hash
key (body number hash) = block_body_key number hash
key (receipts number hash) = block_receipts_key number hash
key (total_difficulty number hash) = header_td_key number hash
key (header_number hash) = header_number_key hash
key (tx_lookup hash) = tx_lookup_key hash
key (cx_lookup hash) = cx_lookup_key hash
key (shard_state epoch) = shard_state_key epoch
key head_header = head_header_key
key head_block = head_block_key
key head_fast_block = head_fast_block_key

-- The numbers fit 64 bits, and a hash has 32 bytes.
abbrev pub IsEntry : Entry → Type 0
IsEntry (canonical_hash number) = number < 2 ^ 64
IsEntry (header number hash) = (number < 2 ^ 64) × (length hash ≡ 32)
IsEntry (body number hash) = (number < 2 ^ 64) × (length hash ≡ 32)
IsEntry (receipts number hash) = (number < 2 ^ 64) × (length hash ≡ 32)
IsEntry (total_difficulty number hash) = (number < 2 ^ 64) × (length hash ≡ 32)
IsEntry (header_number hash) = length hash ≡ 32
IsEntry (tx_lookup hash) = length hash ≡ 32
IsEntry (cx_lookup hash) = length hash ≡ 32
IsEntry (shard_state epoch) = Unit {0}
IsEntry head_header = Unit {0}
IsEntry head_block = Unit {0}
IsEntry head_fast_block = Unit {0}

abbrev numbered : (ℕ → Bytes → Entry) → Bytes → Entry
numbered make rest = make (uint (take 8 rest)) (take 32 (drop 8 rest))

-- What stands under a key, by its first byte and, where entries share it, by the length.
unfoldable pub entry_at : ℕ → Bytes → Option Entry
entry_at c rest =
    if c == 104
    then (if length rest == 9
        then some (canonical_hash (uint (take 8 rest)))
        else if length rest == 40
        then some (numbered header rest)
        else some (numbered total_difficulty rest))
    else if c == 98
    then some (numbered body rest)
    else if c == 114
    then some (numbered receipts rest)
    else if c == 72
    then some (header_number rest)
    else if c == 108
    then some (tx_lookup rest)
    else if c == 99
    then some (cx_lookup (drop 1 rest))
    else if c == 115
    then some (shard_state (uint (drop 1 rest)))
    else if c == 76
    then (if length rest == 9
        then some head_header
        else if length rest == 8
        then some head_block
        else some head_fast_block)
    else none

unfoldable pub entry_of : Bytes → Option Entry
unfolding entry_at
entry_of [] = none
entry_of (c ∷ rest) = entry_at c rest

pub length-big_endian : (w n : ℕ) → length (big_endian w n) ≡ w
unfolding big_endian
length-big_endian zero n = refl
length-big_endian (suc w) n =
    length-append (big_endian w (n / 256)) _ ∙ omega (arith, length-big_endian w (n / 256))

uint_from-append : (n b : ℕ) (bs : Bytes) → uint_from n (bs ++ (b ∷ [])) ≡ uint_from n bs * 256 + b
unfolding uint_from
uint_from-append n b [] = refl
uint_from-append n b (c ∷ bs) = uint_from-append (n * 256 + c) b bs

pub uint-big_endian : (w n : ℕ) → n < 256 ^ w → uint (big_endian w n) ≡ n
unfolding big_endian uint_from
uint-big_endian zero n h = omega arith
uint-big_endian (suc w) n h =
    uint_from-append 0 (n % 256) (big_endian w (n / 256))
    ∙ omega (arith, uint-big_endian w (n / 256) (omega (arith, pow-suc 256 w)))

uint-int_bytes : (w n : ℕ) → n < suc w → uint (int_bytes w n) ≡ n
unfolding int_bytes uint_from
uint-int_bytes zero n h = omega arith
uint-int_bytes (suc w) zero h = refl
uint-int_bytes (suc w) (suc n) h =
    uint_from-append 0 (suc n % 256) (int_bytes w (suc n / 256))
    ∙ omega (arith, uint-int_bytes w (suc n / 256) (omega arith))

append_assoc : (xs ys zs : Bytes) → (xs ++ ys) ++ zs ≡ xs ++ (ys ++ zs)
append_assoc [] ys zs = refl
append_assoc (x ∷ xs) ys zs = ap (◌∷◌ x) (append_assoc xs ys zs)

take_all : (n : ℕ) (xs : Bytes) → length xs ≡ n → take n xs ≡ xs
take_all zero [] e = refl
take_all zero (x ∷ xs) e = absurd (omega arith)
take_all (suc n) [] e = refl
take_all (suc n) (x ∷ xs) e = ap (◌∷◌ x) (take_all n xs (omega arith))

-- The number and the hash in a key of both.
numbered_parts :
    (make : ℕ → Bytes → Entry) (number : ℕ) (hash tail : Bytes)
    → number < 2 ^ 64
    → length hash ≡ 32
    → numbered make (big_endian 8 number ++ (hash ++ tail)) ≡ make number hash
numbered_parts make number hash tail small full =
    let eight = length-big_endian 8 number in
    rw
      (
        take-append 8 (big_endian 8 number) (hash ++ tail) eight,
        drop-append 8 (big_endian 8 number) (hash ++ tail) eight,
        take-append 32 hash tail full,
        uint-big_endian 8 number small,
      )
      refl

length-three :
    (number : ℕ) (hash tail : Bytes)
    → length hash ≡ 32
    → length (big_endian 8 number ++ (hash ++ tail)) ≡ 40 + length tail
length-three number hash tail full =
    length-append (big_endian 8 number) (hash ++ tail)
    ∙ omega (arith, length-append hash tail, length-big_endian 8 number)

append_nil : (xs : Bytes) → xs ++ [] ≡ xs
append_nil [] = refl
append_nil (x ∷ xs) = ap (◌∷◌ x) (append_nil xs)

-- `numbered_parts` for a key that ends with the hash.
numbered_end :
    (make : ℕ → Bytes → Entry) (number : ℕ) (hash : Bytes)
    → number < 2 ^ 64
    → length hash ≡ 32
    → numbered make (big_endian 8 number ++ hash) ≡ make number hash
numbered_end make number hash small full =
    subst (λ end. numbered make (big_endian 8 number ++ end) ≡ make number hash) (append_nil hash)
      (numbered_parts make number hash [] small full)

length-end :
    (number : ℕ) (hash : Bytes) → length hash ≡ 32 → length (big_endian 8 number ++ hash) ≡ 40
length-end number hash full =
    length-append (big_endian 8 number) hash ∙ omega (arith, length-big_endian 8 number)

length-suffix : (number b : ℕ) → length (big_endian 8 number ++ (b ∷ [])) ≡ 9
length-suffix number b =
    length-append (big_endian 8 number) (b ∷ []) ∙ omega (arith, length-big_endian 8 number)

entry_of-key : (e : Entry) → IsEntry e → entry_of (key e) ≡ some e
unfolding entry_of entry_at key header_hash_key header_key header_td_key header_number_key
    block_body_key block_receipts_key tx_lookup_key cx_lookup_key shard_state_key
    encode_block_number
entry_of-key (canonical_hash number) h =
    let bytes = big_endian 8 number in
    rw
      (
        length-suffix number 110,
        take-append 8 bytes (110 ∷ []) (length-big_endian 8 number),
        uint-big_endian 8 number h,
      )
      refl
entry_of-key (header number hash) h =
    rw (length-end number hash h.1) (ap some (numbered_end header number hash h.0 h.1))
entry_of-key (body number hash) h = ap some (numbered_end body number hash h.0 h.1)
entry_of-key (receipts number hash) h = ap some (numbered_end receipts number hash h.0 h.1)
entry_of-key (total_difficulty number hash) h =
    rw (append_assoc (big_endian 8 number) hash (116 ∷ []), length-three number hash (116 ∷ []) h.1)
      (ap some (numbered_parts total_difficulty number hash (116 ∷ []) h.0 h.1))
entry_of-key (header_number hash) h = refl
entry_of-key (tx_lookup hash) h = refl
entry_of-key (cx_lookup hash) h = refl
entry_of-key (shard_state epoch) h =
    ap (λ n. some (shard_state n)) (uint-int_bytes epoch epoch (omega arith))
entry_of-key head_header h = refl
entry_of-key head_block h = refl
entry_of-key head_fast_block h = refl

-- Two entries with the same key are the same entry, given that block numbers fit 64 bits and hashes
-- have 32 bytes.
pub key_injective : (e e' : Entry) → IsEntry e → IsEntry e' → key e ≡ key e' → e ≡ e'
key_injective e e' h h' same =
    let found : some e ≡ some e' = sym (entry_of-key e h) ∙ ap entry_of same ∙ entry_of-key e' h' in
    cc
