-- ===== src/Chain/Merkle/Levels.antt =====
-- For which inputs chain/merkle_tree.go returns: the outer loop runs `len(data)/2` rounds, while
-- each round halves the number of nodes.
use native.Mathlib.Nat.{pow-suc}
use relayer.Base.{
  Bytes, ℕ, zero, suc, ◌+◌, ◌*◌, ◌/◌, ◌%◌, ◌^◌, ◌≤◌, ◌<◌, List, [], ◌∷◌, map, Outcome, ok, ◌≡◌,
  refl, sym, ◌∙◌, ◌↔◌, >>=-eq-ok, length, length-map, arith,
}
use relayer.Chain.Merkle.{
  MerkleNode, leaf, MerkleTree, append_last, pad, first_node, new_merkle_node, leaves, pair_up,
  build_levels, new_merkle_tree,
}

pub length-append_last :
    (x : Bytes) (xs : List Bytes) → length (append_last (x ∷ xs)) ≡ suc (suc (length xs))
unfolding append_last
length-append_last x [] = refl
length-append_last x (y ∷ xs) = omega (arith, length-append_last y xs)

pub length-pad : (ds : List Bytes) → length (pad ds) ≡ length ds + length ds % 2
unfolding pad
length-pad [] = ground arith
length-pad (d ∷ ds) = ground (arith, length-append_last d ds)

lt-pow : (k : ℕ) → 3 ≤ k → 2 * k < 2 ^ k
lt-pow zero h = absurd (omega arith)
lt-pow (suc zero) h = absurd (omega arith)
lt-pow (suc (suc zero)) h = absurd (omega arith)
lt-pow (suc (suc (suc zero))) h = omega arith
lt-pow (suc (suc (suc (suc k)))) h =
    omega (arith, lt-pow (suc (suc (suc k))) (omega arith), pow-suc 2 (suc (suc (suc k))))

record SingleTop (n m : ℕ) : Type 0 where
  some_ : 0 < n
  few : n ≤ 4
  alone : m ≡ 1

single_top : (n k m : ℕ) → n ≡ 2 * k → n ≡ 2 ^ k * m → 0 < m → SingleTop n m
single_top n zero m e h pos = absurd (omega arith)
single_top n (suc zero) m e h pos = record {
  some_ = omega arith;
  few = omega arith;
  alone = omega arith;
}
single_top n (suc (suc zero)) m e h pos = record {
  some_ = omega arith;
  few = omega arith;
  alone = omega arith;
}
single_top n (suc (suc (suc k))) m e h pos =
    absurd (grind (arith, lt-pow (suc (suc (suc k))) (omega arith)))

module _ (sha256 : Bytes → Bytes) where
  pub leaves-eq-map : (ds : List Bytes) → leaves sha256 ds ≡ ok (map (λ d. leaf (sha256 d)) ds)
  unfolding leaves new_merkle_node
  leaves-eq-map [] = refl
  leaves-eq-map (d ∷ ds) = rw (leaves-eq-map ds)

  -- A round that returns halves the number of nodes.
  length-pair_up :
      (nodes : List MerkleNode) (new_level : List MerkleNode)
      → pair_up sha256 nodes ≡ ok new_level
      → length nodes ≡ 2 * length new_level
  unfolding pair_up new_merkle_node
  length-pair_up [] new_level e = ground arith
  length-pair_up (l ∷ []) new_level e = cc
  length-pair_up (l ∷ r ∷ nodes) new_level e =
      let (rest, e', e₂) = >>=-eq-ok (pair_up sha256 nodes) _ e in
      ground (arith, length-pair_up nodes rest e')

  pub length-build_levels :
      (rounds : ℕ) (nodes top : List MerkleNode)
      → build_levels sha256 rounds nodes ≡ ok top
      → length nodes ≡ 2 ^ rounds * length top
  unfolding build_levels
  length-build_levels zero nodes top e = ground arith
  length-build_levels (suc rounds) nodes top e =
      let (new_level, e₁, e₂) = >>=-eq-ok (pair_up sha256 nodes) _ e in
      rw (pow-suc 2 rounds) (
        omega
          (arith, length-pair_up nodes new_level e₁, length-build_levels rounds new_level top e₂))

  pub record Built (data_ : List Bytes) (t : MerkleTree) : Type 0 where
    pub top : List MerkleNode
    pub built :
        build_levels sha256 (length (pad data_) / 2) (map (λ d. leaf (sha256 d)) (pad data_))
        ≡ ok top
    pub first : first_node top ≡ ok t.root_node

  pub new_merkle_tree-Built :
      (data_ : List Bytes) (t : MerkleTree) → new_merkle_tree sha256 data_ ≡ ok t → Built data_ t
  unfolding new_merkle_tree
  new_merkle_tree-Built data_ t e =
      let e₁ = rw (leaves-eq-map (pad data_)) at e in
      let (top, built, e₂) = >>=-eq-ok (build_levels sha256 (length (pad data_) / 2) _) _ e₁ in
      let (root, first, e₃) = >>=-eq-ok (first_node top) _ e₂ in
      record { top = top; built = built; first = ground arith }

  module _ (data_ : List Bytes) {t : MerkleTree} (b : Built data_ t) where
    padded-eq : length (pad data_) ≡ 2 ^ (length (pad data_) / 2) * length b.top
    padded-eq =
        sym (length-map (λ d. leaf (sha256 d)) (pad data_)) ∙ length-build_levels _ _ b.top b.built

    top_pos : 0 < length b.top
    unfolding first_node
    top_pos = ground (arith, b.first)

    rounds : SingleTop (length (pad data_)) (length b.top)
    rounds =
        single_top (length (pad data_)) (length (pad data_) / 2) (length b.top)
          (omega (arith, length-pad data_)) padded-eq top_pos

    -- The outer loop ends with the root alone, and it started from one to four data.
    pub length-top : length b.top ≡ 1
    length-top = rounds.alone

    pub length_bounds : (1 ≤ length data_) × (length data_ ≤ 4)
    length_bounds = omega (arith, rounds.some_, rounds.few, length-pad data_)

  pub Succeeds : Outcome MerkleTree → Type 0
  Succeeds r = (t : MerkleTree) × (r ≡ ok t)

  length-Succeeds :
      (data_ : List Bytes)
      → (1 ≤ length data_) × (length data_ ≤ 4)
      → Succeeds (new_merkle_tree sha256 data_)
  unfolding Succeeds new_merkle_tree pad append_last leaves build_levels pair_up new_merkle_node
      first_node
  length-Succeeds [] h = absurd (omega arith)
  length-Succeeds (a ∷ []) h = (_, refl)
  length-Succeeds (a ∷ b ∷ []) h = (_, refl)
  length-Succeeds (a ∷ b ∷ c ∷ []) h = (_, refl)
  length-Succeeds (a ∷ b ∷ c ∷ d ∷ []) h = (_, refl)
  length-Succeeds (a ∷ b ∷ c ∷ d ∷ e ∷ ds) h = absurd (omega arith)

  -- `NewMerkleTree` returns exactly on one to four data; on none, and on five or more, it panics.
  pub new_merkle_tree-Succeeds_iff :
      (data_ : List Bytes)
      → Succeeds (new_merkle_tree sha256 data_) ↔ ((1 ≤ length data_) × (length data_ ≤ 4))
  unfolding Succeeds
  new_merkle_tree-Succeeds_iff data_ =
      ((λ (t, e). length_bounds data_ (new_merkle_tree-Built data_ t e)), length-Succeeds data_)
