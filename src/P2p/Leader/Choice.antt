-- ===== src/P2p/Leader/Choice.antt =====
-- Whom libp2p/leader_provider.go chooses, and that all nodes choose the same.
use relayer.Base.{
  Bytes, bytes_discrete, List, [], ◌∷◌, Option, none, some, false, ◌≡◌, ◌≢◌, ◌⊎◌, ◌↔◌, inl, inr,
  refl, sym, ◌∙◌, ap, subst, ite, In,
}
use relayer.Base.Dict
use relayer.P2p.Leader.{
  less, sort_texts, is_empty, digest, key_store, hashes, first_of, choose, leader_node,
  relayer_leader_node,
}
use relayer.P2p.Leader.Order.{sort_texts_head, less_antisymm}

module _ (sha256 : Bytes → Bytes) {Peer : Type 0} (text : Peer → Bytes) where
  -- the hash under which an identity is stored
  abbrev pub rank : Bytes → Peer → Bytes
  rank msg_id el = digest sha256 msg_id (text el)

  -- x is of the list, and no member's hash comes before its own.
  pub record IsLeader (msg_id : Bytes) (ids : List Peer) (x : Peer) : Type 0 where
    pub member : In x ids
    pub first : (y : Peer) → In y ids → less (rank msg_id y) (rank msg_id x) ≡ false

  data Stored (msg_id k : Bytes) (ids : List Peer) (store after : List (Bytes × Peer))
      : Type 0 where
    found :
        (x : Peer)
        → In x ids
        → rank msg_id x ≡ k
        → Dict.get bytes_discrete k after ≡ some x
        → Stored msg_id k ids store after
    missing :
        ((x : Peer) → In x ids → rank msg_id x ≢ k)
        → Dict.get bytes_discrete k after ≡ Dict.get bytes_discrete k store
        → Stored msg_id k ids store after

  get-key_store :
      (msg_id k : Bytes) (ids : List Peer) (store : List (Bytes × Peer))
      → Stored msg_id k ids store (key_store sha256 text msg_id ids store)
  unfolding key_store
  get-key_store msg_id k [] store = missing (λ x i. absurd i) refl
  get-key_store msg_id k (el ∷ els) store =
      let rest = get-key_store msg_id k els (Dict.put bytes_discrete (rank msg_id el) el store) in
      elim rest [
        | found x i e g ↦ found x (inr i) e g
        | missing n g ↦
            by_head n g (bytes_discrete (rank msg_id el) k)
              (Dict.get-put bytes_discrete k (rank msg_id el) el store)
      ]
    where
      by_head :
          {after : List (Bytes × Peer)} {now : Option Peer}
          → ((x : Peer) → In x els → rank msg_id x ≢ k)
          → Dict.get bytes_discrete k after ≡ now
          → (d : Dec (rank msg_id el ≡ k)) → now ≡ ite d (some el) (Dict.get bytes_discrete k store)
          → Stored msg_id k (el ∷ els) store after
      by_head n g (yes p) e = found el (inl refl) p (g ∙ e)
      by_head n g (no q) e =
          missing
            (λ x i. elim i [
              | inl here ↦ λ r. q (ap (rank msg_id) here ∙ r)
              | inr later ↦ n x later
            ])
            (g ∙ e)

  In-hashes :
      (msg_id h : Bytes) (ids : List Peer)
      → In h (hashes sha256 text msg_id ids)
      → (x : Peer) × In x ids × (rank msg_id x ≡ h)
  unfolding hashes
  In-hashes msg_id h [] i = absurd i
  In-hashes msg_id h (el ∷ els) (inl e) = (el, inl refl, e)
  In-hashes msg_id h (el ∷ els) (inr i) = let (x, j, e) = In-hashes msg_id h els i in (x, inr j, e)

  hashes-In :
      (msg_id : Bytes) (x : Peer) (ids : List Peer)
      → In x ids
      → In (rank msg_id x) (hashes sha256 text msg_id ids)
  unfolding hashes
  hashes-In msg_id x [] i = absurd i
  hashes-In msg_id x (el ∷ els) (inl e) = inl (ap (rank msg_id) e)
  hashes-In msg_id x (el ∷ els) (inr i) = inr (hashes-In msg_id x els i)

  first_of-eq :
      (zero_id x : Peer) (h : Bytes) (t : List Bytes) (store : List (Bytes × Peer))
      → Dict.get bytes_discrete h store ≡ some x
      → first_of sha256 text store (h ∷ t) zero_id ≡ x
  unfolding first_of
  first_of-eq zero_id x h t store e = rw (first_of, e) refl

  first_of-IsLeader :
      (zero_id : Peer) (msg_id : Bytes) (el : Peer) (els : List Peer)
      → IsLeader msg_id (el ∷ els) (
          first_of sha256 text
            (key_store sha256 text msg_id (el ∷ els) [])
            (sort_texts (hashes sha256 text msg_id (el ∷ els)))
            zero_id)
  unfolding hashes
  first_of-IsLeader zero_id msg_id el els =
      let (h, t, e, f) = sort_texts_head (rank msg_id el) (hashes sha256 text msg_id els) in
      let (w, at_, is_h) = In-hashes msg_id h (el ∷ els) f.member in
      elim (get-key_store msg_id h (el ∷ els) []) [
        | missing n g ↦ absurd (n w at_ is_h)
        | found x i r g ↦
            rw (e, first_of-eq zero_id x h t _ g)
              (record {
                member = i;
                first = λ y j.
                    subst (λ k. less (rank msg_id y) k ≡ false) (sym r)
                      (f.first (rank msg_id y) (hashes-In msg_id y (el ∷ els) j));
              })
      ]

  choose_no_event :
      (zero_id : Peer) (msg_id : Bytes) (ids : List Peer)
      → msg_id ≡ []
      → choose sha256 text zero_id msg_id ids ≡ none
  unfolding choose is_empty
  choose_no_event zero_id [] [] e = refl
  choose_no_event zero_id [] (el ∷ els) e = refl
  choose_no_event zero_id (b ∷ bs) ids e = cc

  IsLeader-unique :
      (msg_id : Bytes) (ids ids' : List Peer) (x y : Peer)
      → ((a b : Peer) → In a ids → In b ids → rank msg_id a ≡ rank msg_id b → a ≡ b)
      → ((a : Peer) → In a ids ↔ In a ids')
      → IsLeader msg_id ids x
      → IsLeader msg_id ids' y
      → x ≡ y
  IsLeader-unique msg_id ids ids' x y no_collision same lx ly =
      let y_in = (same y).1 ly.member in
      no_collision x y lx.member y_in (
        less_antisymm (rank msg_id x) (rank msg_id y) (ly.first x ((same x).0 lx.member))
          (lx.first y y_in))

module _ (sha256 : Bytes → Bytes) {PeerId : Type 0} (pretty : PeerId → Bytes)
    (zero_id : PeerId) where
  -- `RelayerLeaderNode` fails for an empty event or an empty list; else it returns a member of the
  -- list, and no member's hash comes before that one's, whatever collisions there are.
  pub relayer_leader_node_lem :
      (msg_id : Bytes) (ids : List PeerId)
      → ((relayer_leader_node sha256 pretty zero_id msg_id ids ≡ none)
          × ((msg_id ≡ []) ⊎ (ids ≡ [])))
        ⊎ ((x : PeerId) × (relayer_leader_node sha256 pretty zero_id msg_id ids ≡ some x)
            × IsLeader sha256 pretty msg_id ids x)
  unfolding relayer_leader_node choose is_empty
  relayer_leader_node_lem msg_id [] = inl (refl, inr refl)
  relayer_leader_node_lem [] (el ∷ els) = inl (refl, inl refl)
  relayer_leader_node_lem (b ∷ bs) (el ∷ els) =
      inr (_, refl, first_of-IsLeader sha256 pretty zero_id (b ∷ bs) el els)

  -- Two nodes that know the same members, in whatever order and however often each is listed,
  -- choose the same leader for an event that is not empty, if no two members have the same hash.
  pub relayer_leader_node-same_members :
      (msg_id : Bytes) (ids ids' : List PeerId)
      → ((a b : PeerId)
          → In a ids
          → In b ids
          → rank sha256 pretty msg_id a ≡ rank sha256 pretty msg_id b
          → a ≡ b)
      → ((a : PeerId) → In a ids ↔ In a ids')
      → relayer_leader_node sha256 pretty zero_id msg_id ids
        ≡ relayer_leader_node sha256 pretty zero_id msg_id ids'
  unfolding relayer_leader_node
  relayer_leader_node-same_members msg_id ids ids' no_collision same =
      elim (relayer_leader_node_lem msg_id ids) [
        | inl (e, why) ↦ elim (relayer_leader_node_lem msg_id ids') [
          | inl (e', why') ↦ e ∙ sym e'
          | inr (y, e', ly) ↦ absurd (no_leader msg_id ids ids' y same why ly e')
        ]
        | inr (x, e, lx) ↦ elim (relayer_leader_node_lem msg_id ids') [
          | inl (e', why') ↦
              absurd (no_leader msg_id ids' ids x (λ a. ((same a).1, (same a).0)) why' lx e)
          | inr (y, e', ly) ↦
              e
              ∙ ap some (IsLeader-unique sha256 pretty msg_id ids ids' x y no_collision same lx ly)
              ∙ sym e'
        ]
      ]
    where
      no_leader :
          (msg_id : Bytes) (ids ids' : List PeerId) (y : PeerId)
          → ((a : PeerId) → In a ids ↔ In a ids')
          → (msg_id ≡ []) ⊎ (ids ≡ [])
          → IsLeader sha256 pretty msg_id ids' y
          → relayer_leader_node sha256 pretty zero_id msg_id ids' ≡ some y
          → ⊥
      no_leader msg_id ids ids' y same (inl e) l f =
          let g : relayer_leader_node sha256 pretty zero_id msg_id ids' ≡ none =
            choose_no_event sha256 pretty zero_id msg_id ids' e in
          cc
      no_leader msg_id ids ids' y same (inr e) l f = subst (In y) e ((same y).1 l.member)

module _ (sha256 : Bytes → Bytes) where
  -- `LeaderNode` is `RelayerLeaderNode` for identities that are their own text.
  leader_node-eq :
      (msg_id : Bytes) (ids : List Bytes)
      → leader_node sha256 msg_id ids ≡ relayer_leader_node sha256 (λ id. id) [] msg_id ids
  unfolding leader_node relayer_leader_node
  leader_node-eq msg_id ids = refl
