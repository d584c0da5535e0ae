-- ===== src/Chain/Rawdb/RoundTrips.antt =====
-- What the readers of chain/rawdb/accessors_chain.go return after the writers, and that each writer
-- leaves every other entry as it was.
use relayer.Base.{
  ℕ, ◌^◌, ◌<◌, [], ◌∷◌, Bytes, length, none, some, true, false, ok, panic, database_error, ◌≡◌, ◌≢◌,
  ◌∙◌, ap, arith, ite, ℕ_discrete,
}
use relayer.Base.Int.{ℤ}
use relayer.Chain.Header.{Header}
use relayer.Chain.Rawdb.Schema.{
  big_endian, encode_block_number, header_key, header_td_key, header_hash_key, header_number_key,
  block_body_key, head_header_key, head_block_key, head_fast_block_key,
}
use relayer.Chain.Rawdb.Entry.{
  Entry, canonical_hash, header, total_difficulty, header_number, head_header, head_block,
  head_fast_block, key, IsEntry, key_injective, length-big_endian, uint-big_endian,
}
use relayer.Chain.Rawdb.Accessors.{
  Database, Codec, encoded, decoded, read_canonical_hash, write_canonical_hash, read_header_number,
  write_header, read_header, read_header_rlp, delete_header, read_body_rlp, write_body_rlp,
  write_body_bytes, read_head_header_hash, read_head_block_hash, read_head_fast_block_hash,
  write_head_header_hash, write_head_block_hash, write_head_fast_block_hash, read_td, write_td,
  delete_body,
}

-- A store in which every write succeeds, and does what it should.
pub record IsStore (d : Database) : Type 0 where
  pub get-put : (k v : Bytes) (s : d.State) → d.get k (d.put k v s).0 ≡ (v, true)
  pub get-put_other : (j k v : Bytes) (s : d.State) → j ≢ k → d.get j (d.put k v s).0 ≡ d.get j s
  pub get-delete : (k : Bytes) (s : d.State) → d.get k (d.delete k s).0 ≡ ([], false)
  pub get-delete_other : (j k : Bytes) (s : d.State) → j ≢ k → d.get j (d.delete k s).0 ≡ d.get j s

-- What an encoder writes is not empty, and the decoder reads it back.
pub record IsCodec {A : Type 0} (codec : Codec A) : Type 0 where
  pub encode : (a : A) → (b : ℕ) × (bs : Bytes) × (codec.encode a ≡ some (b ∷ bs))
  pub decode : (a : A) (bs : Bytes) → codec.encode a ≡ some bs → codec.decode bs ≡ some a

-- The same of one value: what can be encoded of a type is for the encoder to say.
pub record ReadsBack {A : Type 0} (codec : Codec A) (a : A) : Type 0 where
  pub first : ℕ
  pub rest : Bytes
  pub encodes : codec.encode a ≡ some (first ∷ rest)
  pub decodes : codec.decode (first ∷ rest) ≡ some a

pub decoded-encoded_one :
    {A : Type 0} (codec : Codec A) (a : A)
    → (r : ReadsBack codec a)
    → (encoded codec a ≡ r.first ∷ r.rest) × (decoded codec (encoded codec a) ≡ some a)
unfolding decoded encoded
decoded-encoded_one codec a r = (ground (arith, r.encodes), ground (arith, r.encodes, r.decodes))

-- `BytesToHash` keeps 32 bytes as they are.
abbrev pub KeepsHashes : (Bytes → Bytes) → Type 0
KeepsHashes bytes_to_hash = (h : Bytes) → length h ≡ 32 → bytes_to_hash h ≡ h

decoded-encoded :
    {A : Type 0} (codec : Codec A)
    → IsCodec codec
    → (a : A) → decoded codec (encoded codec a) ≡ some a
unfolding decoded encoded
decoded-encoded codec good a =
    let (b, bs, e) = good.encode a in ground (arith, e, good.decode a (b ∷ bs) e)

module _ (d : Database) (store : IsStore d) where
  get-put_entry :
      (x : Entry) (v : Bytes) (s : d.State)
      → IsEntry x
      → (e : Entry) → IsEntry e
      → e ≢ x
      → d.get (key e) (d.put (key x) v s).0 ≡ d.get (key e) s
  get-put_entry x v s hx e he other =
      store.get-put_other (key e) (key x) v s (λ same. other (key_injective e x he hx same))

  get-delete_entry :
      (x : Entry) (s : d.State)
      → IsEntry x
      → (e : Entry) → IsEntry e
      → e ≢ x
      → d.get (key e) (d.delete (key x) s).0 ≡ d.get (key e) s
  get-delete_entry x s hx e he other =
      store.get-delete_other (key e) (key x) s (λ same. other (key_injective e x he hx same))

  -- After the hash of a block number is written, it is read for that number, and the others read as
  -- before; the numbers fit 64 bits and the hash has 32 bytes.
  pub write_canonical_hash_lem :
      (bytes_to_hash : Bytes → Bytes) (hash : Bytes) (number number' : ℕ) (s : d.State)
      → KeepsHashes bytes_to_hash
      → length hash ≡ 32
      → number < 2 ^ 64
      → number' < 2 ^ 64
      → read_canonical_hash d bytes_to_hash number' (write_canonical_hash d hash number s)
        ≡ ite (ℕ_discrete number number') hash (read_canonical_hash d bytes_to_hash number' s)
  unfolding read_canonical_hash write_canonical_hash key
  write_canonical_hash_lem bytes_to_hash hash number number' s keeps full small small' =
      by_number (ℕ_discrete number number')
    where
      by_number :
          (dec : Dec (number ≡ number'))
          → read_canonical_hash d bytes_to_hash number' (write_canonical_hash d hash number s)
            ≡ ite dec hash (read_canonical_hash d bytes_to_hash number' s)
      by_number (yes same) =
          ground (arith, same, store.get-put (header_hash_key number) hash s, keeps hash full)
      by_number (no other) = ground (
        arith,
        get-put_entry (canonical_hash number) hash s small (canonical_hash number') small'
            (λ e. other cc),
      )

  -- A header that was written is read back under its parent's hash and its number, and so is its
  -- number, if the number fits 64 bits and the hash has 32 bytes.
  pub write_header_lem :
      (codec : Codec Header) (h : Header) (s : d.State)
      → IsCodec codec
      → length h.parent_hash ≡ 32
      → h.number < 2 ^ 64
      → (read_header d codec h.parent_hash h.number (write_header d codec h s) ≡ some h)
        × (read_header_number d h.parent_hash (write_header d codec h s) ≡ some h.number)
  unfolding read_header read_header_rlp read_header_number write_header key encode_block_number
  write_header_lem codec h s good full small =
      let number_key = header_number_key h.parent_hash in
      let s₁ = (d.put number_key (big_endian 8 h.number) s).0 in
      let other =
        get-put_entry (header h.number h.parent_hash) (encoded codec h) s₁ (small, full)
          (header_number h.parent_hash) full (λ e. cc) in
      let both = other ∙ store.get-put number_key (big_endian 8 h.number) s in
      (
        ap (λ r. decoded codec r.0)
              (store.get-put (header_key h.number h.parent_hash) (encoded codec h) s₁)
            ∙ decoded-encoded codec good h,
        ground (arith, both, length-big_endian 8 h.number, uint-big_endian 8 h.number small),
      )

  -- To write a header changes no entry but the header and the number of its parent's hash.
  pub write_header-others :
      (codec : Codec Header) (h : Header) (s : d.State) (e : Entry)
      → length h.parent_hash ≡ 32
      → h.number < 2 ^ 64
      → IsEntry e
      → e ≢ header h.number h.parent_hash
      → e ≢ header_number h.parent_hash
      → d.get (key e) (write_header d codec h s) ≡ d.get (key e) s
  unfolding write_header key
  write_header-others codec h s e full small he other other' =
      get-put_entry (header h.number h.parent_hash) _ _ (small, full) e he other
      ∙ get-put_entry (header_number h.parent_hash) _ s full e he other'

  -- A header that was deleted is not found any more, nor is its number.
  pub delete_header_lem :
      (codec : Codec Header) (hash : Bytes) (number : ℕ) (s : d.State)
      → length hash ≡ 32
      → number < 2 ^ 64
      → (read_header d codec hash number (delete_header d hash number s) ≡ none)
        × (read_header_number d hash (delete_header d hash number s) ≡ none)
  unfolding read_header read_header_rlp read_header_number delete_header key decoded
  delete_header_lem codec hash number s full small =
      let s₁ = (d.delete (header_key number hash) s).0 in
      let kept =
        get-delete_entry (header_number hash) s₁ full (header number hash) (small, full) (λ e. cc)
        ∙ store.get-delete (header_key number hash) s in
      (ground (arith, kept), ground (arith, store.get-delete (header_number_key hash) s₁))

  -- A body that was written is read back; the read of a body that was deleted panics.
  pub write_body_rlp_lem :
      (hash data_ : Bytes) (number : ℕ) (s : d.State)
      → (read_body_rlp d hash number (write_body_bytes d hash number data_ s) ≡ ok data_)
        × (read_body_rlp d hash number (delete_body d hash number s) ≡ panic database_error)
  unfolding read_body_rlp write_body_bytes write_body_rlp delete_body
  write_body_rlp_lem hash data_ number s =
      let written = store.get-put (block_body_key number hash) data_ s in
      let deleted = store.get-delete (block_body_key number hash) s in
      (ground (arith, written), ground (arith, deleted))

  -- A total difficulty that was written is read back, and the header under the same number and hash
  -- reads as before.
  pub write_td_lem :
      (codec : Codec ℤ) (headers : Codec Header) (hash : Bytes) (number : ℕ) (td : ℤ) (s : d.State)
      → IsCodec codec
      → length hash ≡ 32
      → number < 2 ^ 64
      → (read_td d codec hash number (write_td d codec hash number td s) ≡ some td)
        × (read_header d headers hash number (write_td d codec hash number td s)
            ≡ read_header d headers hash number s)
  unfolding read_td write_td read_header read_header_rlp key
  write_td_lem codec headers hash number td s good full small = (
    ap (λ r. decoded codec r.0) (store.get-put (header_td_key number hash) (encoded codec td) s)
        ∙ decoded-encoded codec good td,
    ap (λ r. decoded headers r.0)
        (get-put_entry (total_difficulty number hash) _ s (small, full) (header number hash)
          (small, full) (λ e. cc)),
  )

  -- The three head hashes, of 32 bytes each, are kept apart: each is read as it was last written.
  pub write_heads_lem :
      (bytes_to_hash : Bytes → Bytes) (header_hash block_hash fast_hash : Bytes) (s : d.State)
      → KeepsHashes bytes_to_hash
      → length header_hash ≡ 32
      → length block_hash ≡ 32
      → length fast_hash ≡ 32
      → let s' : d.State =
          write_head_fast_block_hash d fast_hash
            (write_head_block_hash d block_hash (write_head_header_hash d header_hash s)) in
        (read_head_header_hash d bytes_to_hash s' ≡ header_hash)
        × (read_head_block_hash d bytes_to_hash s' ≡ block_hash)
        × (read_head_fast_block_hash d bytes_to_hash s' ≡ fast_hash)
  unfolding read_head_header_hash read_head_block_hash read_head_fast_block_hash
      write_head_header_hash write_head_block_hash write_head_fast_block_hash key
  write_heads_lem bytes_to_hash header_hash block_hash fast_hash s keeps f g h =
      let s₁ = (d.put head_header_key header_hash s).0 in
      let s₂ = (d.put head_block_key block_hash s₁).0 in
      let at_header =
        get-put_entry head_fast_block fast_hash s₂ tt head_header tt (λ e. cc)
        ∙ get-put_entry head_block block_hash s₁ tt head_header tt (λ e. cc)
        ∙ store.get-put head_header_key header_hash s in
      let at_block =
        get-put_entry head_fast_block fast_hash s₂ tt head_block tt (λ e. cc)
        ∙ store.get-put head_block_key block_hash s₁ in
      let at_fast = store.get-put head_fast_block_key fast_hash s₂ in
      (
        ground (arith, at_header, keeps header_hash f),
        ground (arith, at_block, keeps block_hash g),
        ground (arith, at_fast, keeps fast_hash h),
      )
