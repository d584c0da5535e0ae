-- ===== src/Chain/Merkle/Shape.antt =====
-- What tree chain/merkle_tree.go builds: every branch holds the hash of its children, the leaves
-- hold the hashes of the data, and an odd last datum counts twice.
use mathlib.Core.List.{append-nil, append_assoc}
use relayer.Base.{
  Bytes, ℕ, zero, suc, ◌%◌, List, [], ◌∷◌, ◌++◌, map, ok, ◌≡◌, refl, ◌∙◌, ap, >>=-eq-ok, length,
  arith,
}
use relayer.Chain.Merkle.{
  MerkleNode, leaf, branch, node_data, MerkleTree, append_last, pad, first_node, new_merkle_node,
  pair_up, build_levels, new_merkle_tree,
}
use relayer.Chain.Merkle.Levels.{new_merkle_tree-Built, length-top, length-append_last}

-- The data at the leaves, from the left.
abbrev pub leaf_hashes : MerkleNode → List Bytes
leaf_hashes (leaf d) = d ∷ []
leaf_hashes (branch l r d) = leaf_hashes l ++ leaf_hashes r

all_leaf_hashes : List MerkleNode → List Bytes
all_leaf_hashes [] = []
all_leaf_hashes (n ∷ ns) = leaf_hashes n ++ all_leaf_hashes ns

module _ (sha256 : Bytes → Bytes) where
  -- Every branch holds the hash of what its children hold.
  abbrev pub IsMerkle : MerkleNode → Type 0
  IsMerkle (leaf d) = Unit {0}
  IsMerkle (branch l r d) = (d ≡ sha256 (node_data l ++ node_data r)) × IsMerkle l × IsMerkle r

  abbrev AllMerkle : List MerkleNode → Type 0
  AllMerkle [] = Unit {0}
  AllMerkle (n ∷ ns) = IsMerkle n × AllMerkle ns

  pair_up-IsMerkle :
      (nodes new_level : List MerkleNode)
      → pair_up sha256 nodes ≡ ok new_level
      → AllMerkle nodes
      → AllMerkle new_level × (all_leaf_hashes new_level ≡ all_leaf_hashes nodes)
  unfolding pair_up new_merkle_node all_leaf_hashes
  pair_up-IsMerkle [] new_level e h = ground arith
  pair_up-IsMerkle (l ∷ []) new_level e h = cc
  pair_up-IsMerkle (l ∷ r ∷ nodes) new_level e h =
      let (rest, e', e₂) = >>=-eq-ok (pair_up sha256 nodes) _ e in
      let (ih, same) = pair_up-IsMerkle nodes rest e' h.1.1 in
      let eq : new_level ≡ branch l r (sha256 (node_data l ++ node_data r)) ∷ rest = ground arith in
      rw eq (
        ((refl, h.0, h.1.0), ih),
        rw same (append_assoc (leaf_hashes l) (leaf_hashes r) (all_leaf_hashes nodes)),
      )

  build_levels-IsMerkle :
      (rounds : ℕ) (nodes top : List MerkleNode)
      → build_levels sha256 rounds nodes ≡ ok top
      → AllMerkle nodes
      → AllMerkle top × (all_leaf_hashes top ≡ all_leaf_hashes nodes)
  unfolding build_levels
  build_levels-IsMerkle zero nodes top e h = ground arith
  build_levels-IsMerkle (suc rounds) nodes top e h =
      let (new_level, e₁, e₂) = >>=-eq-ok (pair_up sha256 nodes) _ e in
      let (h₁, same₁) = pair_up-IsMerkle nodes new_level e₁ h in
      let (h₂, same₂) = build_levels-IsMerkle rounds new_level top e₂ h₁ in (h₂, same₂ ∙ same₁)

  leaves_start :
      (ds : List Bytes)
      → AllMerkle (map (λ d. leaf (sha256 d)) ds)
        × (all_leaf_hashes (map (λ d. leaf (sha256 d)) ds) ≡ map sha256 ds)
  unfolding all_leaf_hashes
  leaves_start [] = (tt, refl)
  leaves_start (d ∷ ds) = let (h, e) = leaves_start ds in ((tt, h), ap (◌∷◌ (sha256 d)) e)

  root_of_single :
      (top : List MerkleNode) (root : MerkleNode)
      → length top ≡ 1
      → first_node top ≡ ok root
      → AllMerkle top
      → IsMerkle root × (leaf_hashes root ≡ all_leaf_hashes top)
  unfolding first_node all_leaf_hashes
  root_of_single [] root l e h = absurd (omega arith)
  root_of_single (n ∷ []) root l e h = ground (arith, append-nil (leaf_hashes root))
  root_of_single (n ∷ m ∷ ns) root l e h = absurd (omega arith)

  -- A tree that `NewMerkleTree` returns is a Merkle tree of all its data: each branch holds the
  -- hash of the concatenation of its children's data, and the leaves are, from the left, the
  -- hashes of the data, of which an odd last one stands twice.
  pub new_merkle_tree-IsMerkle :
      (data_ : List Bytes) (t : MerkleTree)
      → new_merkle_tree sha256 data_ ≡ ok t
      → IsMerkle t.root_node × (leaf_hashes t.root_node ≡ map sha256 (pad data_))
  new_merkle_tree-IsMerkle data_ t e =
      let b = new_merkle_tree-Built sha256 data_ t e in
      let (start, same) = leaves_start (pad data_) in
      let (h, kept) = build_levels-IsMerkle _ _ b.top b.built start in
      let (root, alone) = root_of_single b.top t.root_node (length-top sha256 data_ b) b.first h in
      (root, alone ∙ kept ∙ same)

  append_last_odd :
      (ds : List Bytes)
      → length ds % 2 ≡ 1
      → (pad ds ≡ append_last ds) × (pad (append_last ds) ≡ append_last ds)
  unfolding pad
  append_last_odd [] h = absurd (ground arith)
  append_last_odd (d ∷ ds) h = ground (arith, length-append_last d ds)

  -- Different data can have one root: an odd number of data, and the same data with the last one
  -- repeated, give the same tree (or the same panic).
  pub new_merkle_tree-append_last :
      (ds : List Bytes)
      → length ds % 2 ≡ 1
      → new_merkle_tree sha256 (append_last ds) ≡ new_merkle_tree sha256 ds
  unfolding new_merkle_tree
  new_merkle_tree-append_last ds h = let (e, e₂) = append_last_odd ds h in rw (e, e₂)
