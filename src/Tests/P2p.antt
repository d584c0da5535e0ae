-- ===== src/Tests/P2p.antt =====
-- libp2p/leader_provider.go at small inputs. The hash is the identity, so that the digests can be
-- read; a peer is a number, and its text is that number as one byte.
use relayer.Base.{
  ℕ, Bytes, bytes_discrete, List, [], ◌∷◌, none, some, ◌≡◌, ◌⊎◌, ◌↔◌, inl, inr, refl, sym, ◌+◌,
  ℕ_discrete, ◌∙◌, ap, In, arith,
}
use relayer.P2p.Leader.{
  less, sort_texts, insert_text, encode_to_string, hex_digit, digest, key_store, hashes, first_of,
  choose, relayer_leader_node, is_empty, leader_node,
}
use relayer.Base.Dict
use relayer.P2p.Leader.Choice.{
  IsLeader, rank, relayer_leader_node_lem, relayer_leader_node-same_members,
}

abbrev plain : Bytes → Bytes
plain bs = bs

abbrev one_byte : ℕ → Bytes
one_byte n = n ∷ []

abbrev event : Bytes
event = 1 ∷ []

program : Unit {0}
unfolding relayer_leader_node leader_node choose is_empty key_store hashes first_of digest
    encode_to_string hex_digit sort_texts insert_text less bytes_discrete ℕ_discrete Dict.get
    Dict.put Dict.delete
program = tt

smallest_digest : relayer_leader_node plain one_byte 0 event (3 ∷ 2 ∷ 3 ∷ []) ≡ some 2
unfolding program
smallest_digest = refl

hex_of_171 : encode_to_string (171 ∷ []) ≡ 97 ∷ 98 ∷ []
unfolding program
hex_of_171 = refl

no_members : leader_node plain event [] ≡ none
unfolding program
no_members = refl

abbrev peers : List ℕ
peers = 3 ∷ 2 ∷ []

relayer_leader_node_lem_example :
    ((relayer_leader_node plain one_byte 0 event (3 ∷ 2 ∷ []) ≡ none)
      × ((event ≡ []) ⊎ (peers ≡ [])))
    ⊎ ((x : ℕ) × (relayer_leader_node plain one_byte 0 event (3 ∷ 2 ∷ []) ≡ some x)
        × IsLeader plain one_byte event (3 ∷ 2 ∷ []) x)
relayer_leader_node_lem_example = relayer_leader_node_lem plain one_byte 0 event (3 ∷ 2 ∷ [])

abbrev total : Bytes → ℕ
total [] = 0
total (b ∷ bs) = b + total bs

two_and_three_differ : rank plain one_byte event 2 ≡ rank plain one_byte event 3 → ⊥
unfolding program
two_and_three_differ e = omega (arith, ap total e)

no_collision :
    (a b : ℕ)
    → In a (3 ∷ 2 ∷ [])
    → In b (3 ∷ 2 ∷ [])
    → rank plain one_byte event a ≡ rank plain one_byte event b
    → a ≡ b
no_collision a b (inl p) (inl q) r = sym p ∙ q
no_collision a b (inr (inl p)) (inr (inl q)) r = sym p ∙ q
no_collision a b (inl p) (inr (inl q)) r = absurd (
    two_and_three_differ
      (ap (rank plain one_byte event) q ∙ sym r ∙ ap (rank plain one_byte event) (sym p)))
no_collision a b (inr (inl p)) (inl q) r = absurd (
    two_and_three_differ
      (ap (rank plain one_byte event) p ∙ r ∙ ap (rank plain one_byte event) (sym q)))
no_collision a b (inl p) (inr (inr n)) r = absurd n
no_collision a b (inr (inl p)) (inr (inr n)) r = absurd n
no_collision a b (inr (inr n)) i r = absurd n

same_peers : (a : ℕ) → In a (3 ∷ 2 ∷ []) ↔ In a (2 ∷ 3 ∷ 2 ∷ [])
same_peers a = ground arith

relayer_leader_node-same_members_example :
    relayer_leader_node plain one_byte 0 event (3 ∷ 2 ∷ [])
    ≡ relayer_leader_node plain one_byte 0 event (2 ∷ 3 ∷ 2 ∷ [])
relayer_leader_node-same_members_example =
    relayer_leader_node-same_members plain one_byte 0 event (3 ∷ 2 ∷ []) (2 ∷ 3 ∷ 2 ∷ [])
      no_collision same_peers
