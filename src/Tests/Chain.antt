-- ===== src/Tests/Chain.antt =====
-- chain/merkle_tree.go at small inputs; the hash is one that can be followed by hand.
use relayer.Base.{
  Bytes, ◌≤◌, List, [], ◌∷◌, map, ok, panic, index_out_of_range, ◌≡◌, refl, ◌↔◌, length,
}
use relayer.Chain.Merkle.{
  leaf, branch, node_data, MerkleTree, append_last, pad, new_merkle_tree, first_node,
  new_merkle_node, leaves, pair_up, build_levels,
}
use relayer.Chain.Merkle.Levels.{Succeeds, new_merkle_tree-Succeeds_iff}
use relayer.Chain.Merkle.Shape.{leaf_hashes, IsMerkle, new_merkle_tree-IsMerkle}

program : Unit {0}
unfolding new_merkle_tree pad append_last leaves build_levels pair_up new_merkle_node first_node
    node_data
program = tt

-- a hash that only marks its input
abbrev mark : Bytes → Bytes
mark bs = 255 ∷ bs

abbrev three : List Bytes
three = (1 ∷ []) ∷ (2 ∷ []) ∷ (3 ∷ []) ∷ []

abbrev tree_of_three : MerkleTree
tree_of_three = record {
  root_node =
      branch (branch (leaf (255 ∷ 1 ∷ [])) (leaf (255 ∷ 2 ∷ [])) (255 ∷ 255 ∷ 1 ∷ 255 ∷ 2 ∷ []))
        (branch (leaf (255 ∷ 3 ∷ [])) (leaf (255 ∷ 3 ∷ [])) (255 ∷ 255 ∷ 3 ∷ 255 ∷ 3 ∷ []))
        (255 ∷ 255 ∷ 255 ∷ 1 ∷ 255 ∷ 2 ∷ 255 ∷ 255 ∷ 3 ∷ 255 ∷ 3 ∷ []);
}

builds_three : new_merkle_tree mark three ≡ ok tree_of_three
unfolding program
builds_three = refl

-- Five transactions in a block are too many, and so is none.
panics_on_five :
    new_merkle_tree mark ((1 ∷ []) ∷ (2 ∷ []) ∷ (3 ∷ []) ∷ (4 ∷ []) ∷ (5 ∷ []) ∷ [])
    ≡ panic index_out_of_range
unfolding program
panics_on_five = refl

panics_on_none : new_merkle_tree mark [] ≡ panic index_out_of_range
unfolding program
panics_on_none = refl

new_merkle_tree-Succeeds_iff_example :
    Succeeds mark (new_merkle_tree mark three) ↔ ((1 ≤ length three) × (length three ≤ 4))
new_merkle_tree-Succeeds_iff_example = new_merkle_tree-Succeeds_iff mark three

new_merkle_tree-IsMerkle_example :
    IsMerkle mark tree_of_three.root_node
    × (leaf_hashes tree_of_three.root_node ≡ map mark (pad three))
new_merkle_tree-IsMerkle_example = new_merkle_tree-IsMerkle mark three tree_of_three builds_three
