-- ===== src/Chain/Block.antt =====
-- chain/block.go: a block and its hash. The encoding of a transaction, `BytesToHash` and sha256 are
-- parameters; the encodings of a block are of the library.
use relayer.Base.{
  ℕ, List, [], ◌∷◌, Bytes, bytes_discrete, ℕ_discrete, Option, none, some, Bool, true, false, ite,
  map, Outcome, ok, panic, nil_dereference, ◌>>=◌, if◌then◌else◌, ◌≡◌, ◌↔◌, arith,
}
use relayer.Base.Int.{ℤ, pos, negsuc}
use relayer.Chain.Header.{Header}
use relayer.Chain.Transaction.{Transaction}
use relayer.Chain.Merkle.{node_data, new_merkle_tree}

-- `header` is a pointer, none for nil.
pub record Block (Request : Type 0) : Type 0 where
  pub number : ℕ
  pub hash : Bytes
  pub transactions : List (Transaction Request)
  pub signature : Bytes
  pub leader : Bytes
  pub chan_id : ℤ
  pub header : Option Header

-- `Cmp` of two numbers is 0
unfoldable pub same_number : ℤ → ℤ → Bool
same_number (pos m) (pos n) = ite (ℕ_discrete m n) true false
same_number (negsuc m) (negsuc n) = ite (ℕ_discrete m n) true false
same_number (pos m) (negsuc n) = false
same_number (negsuc m) (pos n) = false

-- the second of the three tests of `Equal`, which reads both headers
unfoldable pub equal_epochs : Option Header → Option Header → Outcome Bool
equal_epochs none other = panic nil_dereference
equal_epochs (some h) none = panic nil_dereference
equal_epochs (some h) (some h2) = ok (same_number h.epoch.number h2.epoch.number)

same_number_iff : (m n : ℤ) → (same_number m n ≡ true) ↔ (m ≡ n)
unfolding same_number
same_number_iff (pos m) (pos n) = ground arith
same_number_iff (negsuc m) (negsuc n) = ground arith
same_number_iff (pos m) (negsuc n) = ((λ e. absurd (cc)), (λ e. absurd (cc)))
same_number_iff (negsuc m) (pos n) = ((λ e. absurd (cc)), (λ e. absurd (cc)))

module _ {Request : Type 0} where
  unfoldable pub equal : Block Request → Block Request → Outcome Bool
  equal b b2 =
      ite (bytes_discrete b.signature b2.signature)
        (equal_epochs b.header b2.header >>= λ same.
          ok (if same then ite (bytes_discrete b.signature b2.signature) true false else false))
        (ok false)

  -- `Equal` of two blocks with headers does not panic, and is true exactly if their signatures are
  -- the same and the numbers of their epochs, whatever their own numbers, hashes and transactions are.
  pub equal_lem :
      (b b2 : Block Request) (h h2 : Header)
      → b.header ≡ some h
      → b2.header ≡ some h2
      → (same : Bool) × (equal b b2 ≡ ok same)
        × ((same ≡ true) ↔ ((b.signature ≡ b2.signature) × (h.epoch.number ≡ h2.epoch.number)))
  unfolding equal equal_epochs
  equal_lem b b2 h h2 e e2 =
      let iff = same_number_iff h.epoch.number h2.epoch.number in
      (
        ite (bytes_discrete b.signature b2.signature) (same_number h.epoch.number h2.epoch.number)
            false,
        ground (arith, e, e2),
        ground (arith, iff),
      )

module _ {Request : Type 0} (sha256 bytes_to_hash : Bytes → Bytes)
    (serialize : Transaction Request → Bytes) where
  -- of the field `Transactions`
  unfoldable pub hash_transactions : List (Transaction Request) → Outcome Bytes
  hash_transactions transactions =
      new_merkle_tree sha256 (map serialize transactions) >>= λ tree. ok (node_data tree.root_node)

  unfoldable pub new_block :
      Header → ℕ → List (Transaction Request) → Bytes → Outcome (Block Request)
  new_block header number transactions sig = hash_transactions transactions >>= λ hash. ok (record {
    number = number;
    hash = bytes_to_hash hash;
    transactions = transactions;
    signature = sig;
    leader = [];
    chan_id = pos 0;
    header = some header;
  })

  -- the signature is the text "SIGNATURE"
  unfoldable pub new_genesis_block : Header → List (Transaction Request) → Outcome (Block Request)
  new_genesis_block header txs =
      new_block header 1 txs (83 ∷ 73 ∷ 71 ∷ 78 ∷ 65 ∷ 84 ∷ 85 ∷ 82 ∷ 69 ∷ [])
