-- ===== src/P2p/Leader.antt =====
-- libp2p/leader_provider.go: the node that is to act on an event is the one whose identity,
-- hashed together with the event's, comes first.
-- `sha256.Sum256` is a parameter, and so is `Pretty` of go-libp2p's peer.ID.
pub mod Order
pub mod Choice
use relayer.Base.{
  ℕ, ◌+◌, ◌/◌, ◌%◌, List, [], ◌∷◌, ◌++◌, map, Option, none, some, Bool, true, false, ltb, ◌==◌,
  ◌||◌, if◌then◌else◌, Bytes, bytes_discrete,
}
use relayer.Base.Dict

-- Go's `<` on strings
unfoldable pub less : Bytes → Bytes → Bool
less [] [] = false
less [] (y ∷ ys) = true
less (x ∷ xs) [] = false
less (x ∷ xs) (y ∷ ys) =
    let rest = less xs ys in if ltb x y then true else if x == y then rest else false

-- `sort.Strings`
unfoldable pub insert_text : Bytes → List Bytes → List Bytes
insert_text x [] = x ∷ []
insert_text x (y ∷ ys) = let rest = insert_text x ys in if less y x then y ∷ rest else x ∷ y ∷ ys

unfoldable pub sort_texts : List Bytes → List Bytes
sort_texts [] = []
sort_texts (x ∷ xs) = insert_text x (sort_texts xs)

-- `hex.EncodeToString`, with lower-case digits
unfoldable pub hex_digit : ℕ → ℕ
hex_digit n = if ltb n 10 then 48 + n else 87 + n

unfoldable pub encode_to_string : List ℕ → Bytes
encode_to_string [] = []
encode_to_string (b ∷ bs) = hex_digit (b / 16) ∷ hex_digit (b % 16) ∷ encode_to_string bs

unfoldable pub is_empty : {A : Type 0} → List A → Bool
is_empty [] = true
is_empty (x ∷ xs) = false

module _ (sha256 : List ℕ → List ℕ) where
  unfoldable pub digest : Bytes → Bytes → Bytes
  digest msg_id el = encode_to_string (sha256 (msg_id ++ el))

  module _ {Peer : Type 0} (text : Peer → Bytes) where
    -- the loop's writes to `keyStore`, a later identity over an earlier one of the same hash
    unfoldable pub key_store : Bytes → List Peer → List (Bytes × Peer) → List (Bytes × Peer)
    key_store msg_id [] store = store
    key_store msg_id (el ∷ els) store =
        key_store msg_id els (Dict.put bytes_discrete (digest msg_id (text el)) el store)

    -- the loop's writes to `hashes`
    unfoldable pub hashes : Bytes → List Peer → List Bytes
    hashes msg_id = map (λ el. digest msg_id (text el))

    -- `keyStore[hashes[0]]`; the zero value where the key is missing. There are hashes where this
    -- is called.
    unfoldable pub first_of : List (Bytes × Peer) → List Bytes → Peer → Peer
    first_of store [] zero_id = zero_id
    first_of store (h ∷ hs) zero_id = elim (Dict.get bytes_discrete h store) [
      | some el ↦ el
      | none ↦ zero_id
    ]

    -- the body that both functions share; `none` is the error
    unfoldable pub choose : Peer → Bytes → List Peer → Option Peer
    choose zero_id msg_id ids =
        if is_empty ids || is_empty msg_id
        then none
        else some (first_of (key_store msg_id ids []) (sort_texts (hashes msg_id ids)) zero_id)

  unfoldable pub leader_node : Bytes → List Bytes → Option Bytes
  leader_node = choose (λ id. id) []

  unfoldable pub relayer_leader_node :
      {PeerId : Type 0} → (PeerId → Bytes) → PeerId → Bytes → List PeerId → Option PeerId
  relayer_leader_node pretty zero_id = choose pretty zero_id
