-- ===== src/Eth/Methods/Calls.antt =====
-- What the methods of extChains/eth/client_methods.go give: answers of connections to the client's
-- own chain only.
use relayer.Base.{
  ℕ, ◌==◌, ◌||◌, Bool, List, [], ◌∷◌, Bytes, Option, none, some, true, false, ◌≡◌, refl, arith,
  if_elim, inl, inr, Option-cases,
}
use relayer.Eth.Client.{Network, Client, Got, got, refused, hangs}
use relayer.Eth.Client.Connect.{
  IsClient, usable, first_usable, answering, taken, chosen, get_client-eq,
}
use relayer.Eth.Methods.{Reply, reply, crashed, use_client, with_client, know_chain, chain_id}

module _ {Conn : Type 0} where
  answering_right :
      (net : Network Conn) (id : ℕ) (conn still : Conn)
      → answering net id conn ≡ some still
      → (net.chain_id still ≡ some id)
  answering_right net id conn still e = ground (arith, e)

  usable_right :
      (net : Network Conn) (id : ℕ) (url : Bytes) (conn : Conn)
      → usable net id url ≡ some conn
      → net.chain_id conn ≡ some id
  usable_right net id url conn e = ground (arith, e)

  first_usable_right :
      (net : Network Conn) (id : ℕ) (urls : List Bytes) (conn : Conn)
      → first_usable net id urls ≡ some conn
      → net.chain_id conn ≡ some id
  first_usable_right net id [] conn e = cc
  first_usable_right net id (url ∷ urls) conn e =
      ground (arith, usable_right net id url, first_usable_right net id urls conn)

  -- How `getClient` ended, and what is known of the client then.
  pub data Ended (nets : ℕ → Network Conn) (id : ℕ) : Got Conn → Type 0 where
    right :
        (conn : Conn) (i : ℕ) → (nets i).chain_id conn ≡ some id → Ended nets id (got (some conn))
    again :
        (still : Conn)
        → (nets 0).chain_id still ≡ some id
        → Ended nets id (got ((nets 0).read_again still))
    not_got : Ended nets id refused
    blocked : Ended nets id hangs

  -- A call of `getClient` ended as it may, and left a client of the same chain.
  abbrev pub Fine : (ℕ → Network Conn) → Client Conn → Got Conn × Client Conn → Type 0
  Fine nets c r =
      Ended nets c.chain_id r.0
      × IsClient r.1
      × (r.1.chain_id ≡ c.chain_id)
      × (r.1.sub_loop_initialized ≡ c.sub_loop_initialized)

  taken-Fine :
      (nets : ℕ → Network Conn) (drains : Bool) (c : Client Conn) (i : ℕ) (o : Option Conn)
      → IsClient c
      → ((conn : Conn) → o ≡ some conn → (nets i).chain_id conn ≡ some c.chain_id)
      → Fine nets c (taken drains c o)
  taken-Fine nets drains c i none h k =
      (not_got, record { no_current = h.no_current; some_url = h.some_url }, refl, refl)
  taken-Fine nets drains c i (some conn) h k =
      let held : Ended nets c.chain_id (got (some conn)) = right conn i (k conn refl) in
      if_elim (Fine nets c) c.sub_loop_initialized _ _
        (if_elim (Fine nets c) (c.signals == 0 || drains) _ _
          (held, record { no_current = h.no_current; some_url = h.some_url }, refl, refl)
          (blocked, record { no_current = h.no_current; some_url = h.some_url }, refl, refl))
        (held, record { no_current = h.no_current; some_url = h.some_url }, refl, refl)

  kept-Fine :
      (nets : ℕ → Network Conn) (c : Client Conn) (o : Option Conn)
      → IsClient c
      → ((conn : Conn) → o ≡ some conn → (nets 0).chain_id conn ≡ some c.chain_id)
      → Fine nets c (elim o [
        | some still ↦
            (got ((nets 0).read_again still), record c { connected = true; recreated = false })
        | none ↦
            taken
              (nets 1).drains
              (record c { eth_client = none })
              (first_usable (nets 1) c.chain_id c.urls)
      ])
  kept-Fine nets c none h k =
      taken-Fine nets (nets 1).drains (record c { eth_client = none }) 1
        (first_usable (nets 1) c.chain_id c.urls)
        (record { no_current = h.no_current; some_url = h.some_url })
        (first_usable_right (nets 1) c.chain_id c.urls)
  kept-Fine nets c (some still) h k = (
    again still (k still refl),
    record { no_current = h.no_current; some_url = h.some_url },
    refl,
    refl,
  )

  pub chosen-Fine :
      (nets : ℕ → Network Conn) (c : Client Conn) (o : Option Conn)
      → IsClient c
      → Fine nets c (chosen nets c o)
  chosen-Fine nets c none h =
      taken-Fine nets (nets 0).drains c 0 (first_usable (nets 0) c.chain_id c.urls) h
        (first_usable_right (nets 0) c.chain_id c.urls)
  chosen-Fine nets c (some conn) h =
      kept-Fine nets c (answering (nets 0) c.chain_id conn) h
        (answering_right (nets 0) c.chain_id conn)

  -- A connection that answered with the chain when it was looked at, or one that another goroutine
  -- had put in the place of such a one when the field was read again.
  pub data Reached (nets : ℕ → Network Conn) (id : ℕ) (conn : Conn) : Type 0 where
    checked : (i : ℕ) → (nets i).chain_id conn ≡ some id → Reached nets id conn
    replaced :
        (still : Conn)
        → (nets 0).chain_id still ≡ some id
        → (nets 0).read_again still ≡ some conn
        → Reached nets id conn

  -- What is known of the result of a method.
  pub record Answers {A : Type 0} (call : Conn → Option A) (nets : ℕ → Network Conn)
      (c : Client Conn) (r : Reply A × Client Conn) : Type 0 where
    pub raced :
        r.0 ≡ crashed
        → (still : Conn) × ((nets 0).chain_id still ≡ some c.chain_id)
          × ((nets 0).read_again still ≡ none)
    pub own_chain :
        (a : A)
        → r.0 ≡ reply a
        → (conn : Conn) × Reached nets c.chain_id conn × (call conn ≡ some a)
    pub stays : IsClient r.1
    pub same_chain : r.1.chain_id ≡ c.chain_id
    pub same_loop : r.1.sub_loop_initialized ≡ c.sub_loop_initialized

  use_client-crashed :
      {A : Type 0} (call : Conn → Option A) (nets : ℕ → Network Conn) (id : ℕ) (g : Got Conn)
      → Ended nets id g
      → use_client call g ≡ crashed
      → (still : Conn) × ((nets 0).chain_id still ≡ some id) × ((nets 0).read_again still ≡ none)
  unfolding use_client
  use_client-crashed call nets id _ (right conn i e) q = absurd (ground (arith, q))
  use_client-crashed call nets id _ (again still e) q = (
    still,
    e,
    elim (Option-cases ((nets 0).read_again still)) [
      | inl lost ↦ lost
      | inr (conn, there) ↦ absurd (ground (arith, q, there))
    ],
  )
  use_client-crashed call nets id _ not_got q = absurd (cc)
  use_client-crashed call nets id _ blocked q = absurd (cc)

  use_client_right :
      {A : Type 0} (call : Conn → Option A) (nets : ℕ → Network Conn) (id : ℕ) (g : Got Conn)
      → Ended nets id g
      → (a : A) → use_client call g ≡ reply a
      → (conn : Conn) × Reached nets id conn × (call conn ≡ some a)
  unfolding use_client
  use_client_right call nets id _ (right conn i e) a q = (conn, checked i e, ground (arith, q))
  use_client_right call nets id _ (again still e) a q =
      elim (Option-cases ((nets 0).read_again still)) [
        | inl lost ↦ absurd (ground (arith, q, lost))
        | inr (conn, there) ↦ (conn, replaced still e there, ground (arith, q, there))
      ]
  use_client_right call nets id _ not_got a q = absurd (cc)
  use_client_right call nets id _ blocked a q = absurd (cc)

  -- What a method replies is what a connection answered that was to the client's own chain when the
  -- method checked it, or that another goroutine had put in the place of such a one by the time that
  -- the method read the field again. A method uses a nil connection only if another goroutine had
  -- lost by then the one that it checked. It leaves the client fit for the next.
  pub with_client-Answers :
      {A : Type 0} (call : Conn → Option A) (nets : ℕ → Network Conn) (c : Client Conn)
      → IsClient c
      → Answers call nets c (with_client call nets c)
  unfolding with_client
  with_client-Answers call nets c h =
      let (ended, stays, same, loop) = chosen-Fine nets c c.eth_client h in
      rw (get_client-eq 0 nets c h, with_client)
        (record {
          raced = use_client-crashed call nets c.chain_id _ ended;
          own_chain = use_client_right call nets c.chain_id _ ended;
          stays = stays;
          same_chain = same;
          same_loop = loop;
        })

  know_chain_lem : (id : ℕ) (g : Got Conn) (n : ℕ) → know_chain id g ≡ reply n → n ≡ id
  unfolding know_chain
  know_chain_lem id (got conn) n e = cc
  know_chain_lem id refused n e = absurd (cc)
  know_chain_lem id hangs n e = absurd (cc)

  -- What `ChainID` replies is the client's own chain, and it leaves the client fit.
  pub chain_id_lem :
      (nets : ℕ → Network Conn) (c : Client Conn)
      → IsClient c
      → ((n : ℕ) → (chain_id nets c).0 ≡ reply n → n ≡ c.chain_id)
        × IsClient (chain_id nets c).1
        × ((chain_id nets c).1.sub_loop_initialized ≡ c.sub_loop_initialized)
  unfolding chain_id
  chain_id_lem nets c h =
      let (ended, stays, same, loop) = chosen-Fine nets c c.eth_client h in
      rw (get_client-eq 0 nets c h, chain_id) (know_chain_lem c.chain_id _, stays, loop)
