-- ===== src/Gsn/Discovery.antt =====
-- The discovery of a peer of the gas station by a client, of libp2p/rpc/gsn/client.go.
use relayer.Base.{
  if_cases, Bool-cases, sym, ap, ◌∙◌, subst, List, [], ◌∷◌, Option, none, some, Bool, true, false,
  if◌then◌else◌, ◌≡◌, ◌⊎◌, inl, inr, refl, ◌++◌,
}

-- a peer that provides the service, and whether the host is connected to it after it dialled, where
-- it was not connected before
pub record Provider (Peer : Type 0) : Type 0 where
  pub peer : Peer
  pub connected : Bool

-- a tick: whether the host is still connected to the peer that it has, and what it finds if not
pub record Tick (Peer : Type 0) : Type 0 where
  pub still_connected : Bool
  pub providers : List (Provider Peer)

module _ {Peer : Type 0} where
  -- the loop over the channel of providers
  unfoldable pub take_providers : List (Provider Peer) → Option Peer → Option Peer
  take_providers [] gsn_peer = gsn_peer
  take_providers (p ∷ ps) gsn_peer =
      take_providers ps (if p.connected then some p.peer else gsn_peer)

  unfoldable pub discovery_tick : Tick Peer → Option Peer → Option Peer
  discovery_tick t none = take_providers t.providers none
  discovery_tick t (some peer) =
      let found = take_providers t.providers (some peer) in
      if t.still_connected then some peer else found

  unfoldable pub discovery : List (Tick Peer) → Option Peer → Option Peer
  discovery [] gsn_peer = gsn_peer
  discovery (t ∷ ts) gsn_peer = discovery ts (discovery_tick t gsn_peer)

  -- The loop of `WaitForDiscoveryGsn`, which looks again and again: at each look the peer of the
  -- client, and whether the time is over. With whether its error is nil; none if it is not over.
  unfoldable pub wait_for_discovery_gsn : List (Option Peer × Bool) → Option Bool
  wait_for_discovery_gsn [] = none
  wait_for_discovery_gsn ((gsn_peer, late) ∷ looks) =
      let rest = wait_for_discovery_gsn looks in
      elim gsn_peer [ some peer ↦ some true | none ↦ if late then some false else rest ]

  -- the peers that a tick finds connected
  unfoldable pub connected_peers : List (Provider Peer) → List Peer
  connected_peers [] = []
  connected_peers (p ∷ ps) =
      let rest = connected_peers ps in if p.connected then p.peer ∷ rest else rest

  last_or : Option Peer → List Peer → Option Peer
  last_or before [] = before
  last_or before (x ∷ xs) = last_or (some x) xs

  last_or-append :
      (before : Option Peer) (xs : List Peer) (x : Peer) → last_or before (xs ++ (x ∷ [])) ≡ some x
  unfolding last_or
  last_or-append before [] x = refl
  last_or-append before (y ∷ xs) x = last_or-append (some y) xs x

  take_providers-last_or :
      (ps : List (Provider Peer)) (before : Option Peer)
      → take_providers ps before ≡ last_or before (connected_peers ps)
  unfolding take_providers connected_peers last_or
  take_providers-last_or [] before = refl
  take_providers-last_or (p ∷ ps) before = elim (Bool-cases p.connected) [
    | inl on ↦ rw on (take_providers-last_or ps (some p.peer))
    | inr off ↦ rw off (take_providers-last_or ps before)
  ]

  -- What a client has after a tick, from what it had.
  pub record Ticks (t : Tick Peer) (had has : Option Peer) : Type 0 where
    pub kept : (peer : Peer) → had ≡ some peer → t.still_connected ≡ true → has ≡ had
    pub changed :
        (had ≡ none) ⊎ (t.still_connected ≡ false)
        → (others : List Peer) (peer : Peer) → connected_peers t.providers ≡ others ++ (peer ∷ [])
        → has ≡ some peer
    pub lost : connected_peers t.providers ≡ [] → has ≡ had

  found-Ticks :
      (t : Tick Peer) (had : Option Peer)
      → ((peer : Peer) → had ≡ some peer → t.still_connected ≡ true → ⊥)
      → Ticks t had (take_providers t.providers had)
  unfolding last_or
  found-Ticks t had looks =
      let eq = take_providers-last_or t.providers had in
      record {
        kept = λ peer e on. absurd (looks peer e on);
        changed = λ free others peer e. eq ∙ ap (last_or had) e ∙ last_or-append had others peer;
        lost = λ e. eq ∙ ap (last_or had) e;
      }

  discovery_tick-Ticks : (t : Tick Peer) (had : Option Peer) → Ticks t had (discovery_tick t had)
  unfolding discovery_tick
  discovery_tick-Ticks t none = found-Ticks t none (λ peer e on. cc)
  discovery_tick-Ticks t (some peer) =
      if_cases (Ticks t (some peer)) t.still_connected _ _
        (λ on. record {
          kept = λ p e still. refl;
          changed =
              λ free others p e. elim free [ inl none_had ↦ absurd (cc) | inr off ↦ absurd (cc) ];
          lost = λ e. refl;
        })
        (λ off. found-Ticks t (some peer) (λ p e on. cc))

  discovery-append :
      (ts us : List (Tick Peer)) (before : Option Peer)
      → discovery (ts ++ us) before ≡ discovery us (discovery ts before)
  unfolding discovery
  discovery-append [] us before = refl
  discovery-append (t ∷ ts) us before = discovery-append ts us (discovery_tick t before)

  -- After any ticks, what one more does to the peer that a client has: it stays while the host is
  -- still connected to it, whatever else is found; if there is none, or it is not connected any more,
  -- the last of the providers that the host comes to be connected to takes its place; and if there is
  -- no such provider, it stays, also one that is lost.
  pub discovery-Ticks :
      (ts : List (Tick Peer)) (t : Tick Peer) (before : Option Peer)
      → Ticks t (discovery ts before) (discovery (ts ++ (t ∷ [])) before)
  unfolding discovery
  discovery-Ticks ts t before =
      subst (Ticks t (discovery ts before)) (sym (discovery-append ts (t ∷ []) before))
        (discovery_tick-Ticks t (discovery ts before))
