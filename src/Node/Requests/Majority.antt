-- ===== src/Node/Requests/Majority.antt =====
-- The thresholds of a session that node/bridge/node.go makes.
use relayer.Base.{
  ◌+◌, ◌*◌, ◌<◌, ◌≤◌, List, [], ◌∷◌, Option, none, some, Bool, true, false, In, inl, inr, subst,
  if_cases, ◌/◌, ◌≡◌, refl, arith,
}
use relayer.Base.Int.{ℤ}
use relayer.Node.Requests.{Gathering, NewSession, Registry, enough, gather, new_session}

module _ {Peer : Type 0} where
  -- The thresholds of a session are the least majority of those who took part in a round.
  pub record IsMajority (session : NewSession Peer) (g : Gathering Peer) : Type 0 where
    pub strict : g.participants < 2 * session.threshold_wit
    pub least : 2 * session.threshold_wit ≤ g.participants + 2
    pub acks : session.threshold_ack ≡ session.threshold_wit
    pub four : 4 ≤ session.threshold_wit
    pub rendezvous : g.in_rendezvous + 2 < 2 * g.participants
    pub chosen : session.leader ≡ g.leader

  abbrev made : ℤ → Gathering Peer → NewSession Peer
  made id g = record {
    id = id;
    threshold_wit = g.participants / 2 + 1;
    threshold_ack = g.participants / 2 + 1;
    leader = g.leader;
  }

  enough-IsMajority : (id : ℤ) (g : Gathering Peer) → enough g ≡ true → IsMajority (made id g) g
  unfolding enough
  enough-IsMajority id g e = record {
    strict = ground arith;
    least = ground arith;
    acks = refl;
    four = ground arith;
    rendezvous = ground arith;
    chosen = refl;
  }

  gather_lem :
      (id : ℤ) (rounds : List (Gathering Peer)) (session : NewSession Peer)
      → gather id rounds ≡ some session
      → (g : Gathering Peer) × In g rounds × IsMajority session g
  unfolding gather
  gather_lem id [] session e = absurd (ground arith)
  gather_lem id (g ∷ rounds) session e =
      if_cases
        (λ r. r ≡ some session → (g' : Gathering Peer) × In g' (g ∷ rounds) × IsMajority session g')
        (enough g) (some (made id g)) (gather id rounds)
        (λ q f.
          (g, inl refl, subst (λ s. IsMajority s g) (ground arith) (enough-IsMajority id g q)))
        (λ q f. let (g', i, m) = gather_lem id rounds session f in (g', inr i, m)) e

  -- Where `NewSession` returns a session, one of the rounds had more participants than half of the
  -- rendezvous and one; the two thresholds of the session are the least strict majority of those
  -- participants, at least four, and its leader is the leader of that round.
  pub new_session-IsMajority :
      (registry : Registry) (rounds : List (Gathering Peer)) (session : NewSession Peer)
      → (new_session registry rounds).1 ≡ some session
      → (g : Gathering Peer) × In g rounds × IsMajority session g
  unfolding new_session
  new_session-IsMajority registry rounds session e =
      by_answers registry.public_keys registry.node_exists registry.node_id e
    where
      by_answers :
          (public_keys node_exists : Bool) (node_id : Option ℤ)
          → (new_session
              (record { public_keys = public_keys; node_exists = node_exists; node_id = node_id })
              rounds).1
            ≡ some session
          → (g : Gathering Peer) × In g rounds × IsMajority session g
      by_answers true true (some id) f = gather_lem id rounds session f
      by_answers true true none f = absurd (ground arith)
      by_answers true false node_id f = absurd (ground arith)
      by_answers false node_exists node_id f = absurd (ground arith)
