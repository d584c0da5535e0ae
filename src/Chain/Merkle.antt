-- ===== src/Chain/Merkle.antt =====
-- chain/merkle_tree.go. `sha256.Sum256` of the standard library is a parameter, a function on
-- byte strings. Slices are lists; an access out of range panics. `&nodes[j]` points into a slice
-- that is not written again, so a pointer to a node is the node.
pub mod Levels
pub mod Shape
use relayer.Base.{
  Bytes, ℕ, zero, suc, ◌/◌, ◌%◌, ◌==◌, if◌then◌else◌, List, [], ◌∷◌, ◌++◌, Option, none, some,
  Outcome, ok, panic, index_out_of_range, nil_dereference, ◌>>=◌, length,
}

-- `MerkleNode`: either both of `Left` and `Right` are nil, or neither is.
pub data MerkleNode : Type 0 where
  leaf : Bytes → MerkleNode
  branch : MerkleNode → MerkleNode → Bytes → MerkleNode

-- the field `Data`
unfoldable pub node_data : MerkleNode → Bytes
node_data (leaf d) = d
node_data (branch l r d) = d

pub record MerkleTree : Type 0 where
  pub root_node : MerkleNode

-- `append(data, data[len(data)-1])`
unfoldable pub append_last : List Bytes → List Bytes
append_last [] = []
append_last (x ∷ []) = x ∷ x ∷ []
append_last (x ∷ y ∷ xs) = x ∷ append_last (y ∷ xs)

-- the first `if` of `NewMerkleTree`; of an odd length the data are not empty
unfoldable pub pad : List Bytes → List Bytes
pad data_ = if length data_ % 2 == 0 then data_ else append_last data_

-- `&nodes[0]`
unfoldable pub first_node : List MerkleNode → Outcome MerkleNode
first_node [] = panic index_out_of_range
first_node (n ∷ ns) = ok n

module _ (sha256 : Bytes → Bytes) where
  unfoldable pub new_merkle_node :
      Option MerkleNode → Option MerkleNode → Bytes → Outcome MerkleNode
  new_merkle_node none none data_ = ok (leaf (sha256 data_))
  new_merkle_node (some l) (some r) data_ = ok (branch l r (sha256 (node_data l ++ node_data r)))
  new_merkle_node none (some r) data_ = panic nil_dereference
  new_merkle_node (some l) none data_ = panic nil_dereference

  -- the loop over the data
  unfoldable pub leaves : List Bytes → Outcome (List MerkleNode)
  leaves [] = ok []
  leaves (d ∷ ds) = do node ← new_merkle_node none none d; rest ← leaves ds; ok (node ∷ rest)

  -- the loop `for j := 0; j < len(nodes); j += 2`
  unfoldable pub pair_up : List MerkleNode → Outcome (List MerkleNode)
  pair_up [] = ok []
  pair_up (l ∷ []) = panic index_out_of_range
  pair_up (l ∷ r ∷ nodes) = do
    node ← new_merkle_node (some l) (some r) []
    rest ← pair_up nodes
    ok (node ∷ rest)

  -- the loop `for i := 0; i < len(data)/2; i++`, on the rounds left
  unfoldable pub build_levels : ℕ → List MerkleNode → Outcome (List MerkleNode)
  build_levels zero nodes = ok nodes
  build_levels (suc rounds) nodes = do new_level ← pair_up nodes; build_levels rounds new_level

  unfoldable pub new_merkle_tree : List Bytes → Outcome MerkleTree
  new_merkle_tree data_ = do
    let padded = pad data_
    nodes ← leaves padded
    top ← build_levels (length padded / 2) nodes
    root ← first_node top
    ok (record { root_node = root })
