-- ===== src/Eth/Client/Connect.antt =====
-- What `getClient` of extChains/eth/client.go comes to: the client keeps its connection while that
-- answers with the right chain, and otherwise takes the first url that does.
use relayer.Base.{
  ℕ, suc, List, [], ◌∷◌, Bytes, Option, none, some, Bool, true, false, ◌==◌, ◌||◌, if◌then◌else◌,
  ◌≡◌, refl, sym, ap, ◌∙◌, arith, inl, inr, Option-cases, Bool-cases,
}
use relayer.Eth.Client.{
  Network, Client, Got, got, refused, hangs, skips, dial_urls, send_resubscribe_signal, after_dial,
  check_connection, get_client,
}

module _ {Conn : Type 0} where
  -- The connection that a url gives, if it is to the chain.
  abbrev pub usable : Network Conn → ℕ → Bytes → Option Conn
  usable net id url = elim (net.dial url) [
    | none ↦ none
    | some conn ↦ elim (net.chain_id conn) [
      | none ↦ none
      | some answered ↦ if answered == id then some conn else none
    ]
  ]

  -- The first that the urls give.
  abbrev pub first_usable : Network Conn → ℕ → List Bytes → Option Conn
  first_usable net id [] = none
  first_usable net id (url ∷ urls) = elim (usable net id url) [
    | some conn ↦ some conn
    | none ↦ first_usable net id urls
  ]

  -- the client after it looked for a connection
  abbrev pub settled : Client Conn → Option Conn → Client Conn
  settled c none = record c { connected = false }
  settled c (some conn) = record c { eth_client = some conn; connected = true; recreated = true }

  skips_never : (url : Bytes) (c : Client Conn) → c.current_url ≡ [] → skips url c ≡ false
  unfolding skips
  skips_never url c e = ground (arith, e)

  dial_urls-step :
      (net : Network Conn) (url : Bytes) (urls : List Bytes) (c : Client Conn)
      → c.current_url ≡ []
      → dial_urls net (url ∷ urls) c ≡ elim (usable net c.chain_id url) [
        | some conn ↦ settled c (some conn)
        | none ↦ dial_urls net urls (record c { connected = false })
      ]
  unfolding dial_urls
  dial_urls-step net url urls c e = elim (Option-cases (net.dial url)) [
    | inl off ↦ rw (skips_never url c e) (rw off refl)
    | inr (conn, d) ↦ elim (Option-cases (net.chain_id conn)) [
      | inl mute ↦ rw (skips_never url c e) (rw d (rw mute refl))
      | inr (id, a) ↦ elim (Bool-cases (id == c.chain_id)) [
        | inl same ↦ rw (skips_never url c e) (rw d (rw a (rw same refl)))
        | inr other ↦ rw (skips_never url c e) (rw d (rw a (rw other refl)))
      ]
    ]
  ]

  first_usable_here :
      (net : Network Conn) (id : ℕ) (url : Bytes) (urls : List Bytes) (conn : Conn)
      → usable net id url ≡ some conn
      → first_usable net id (url ∷ urls) ≡ some conn
  first_usable_here net id url urls conn e =
      ap
        (λ (o : Option Conn). elim o as (λ x. Option Conn) [
          | some found ↦ some found
          | none ↦ first_usable net id urls
        ])
        e

  first_usable_later :
      (net : Network Conn) (id : ℕ) (url : Bytes) (urls : List Bytes)
      → usable net id url ≡ none
      → first_usable net id (url ∷ urls) ≡ first_usable net id urls
  first_usable_later net id url urls e =
      ap
        (λ (o : Option Conn). elim o as (λ x. Option Conn) [
          | some found ↦ some found
          | none ↦ first_usable net id urls
        ])
        e

  dial_urls-off :
      (net : Network Conn) (urls : List Bytes) (c : Client Conn)
      → c.current_url ≡ []
      → dial_urls net urls (record c { connected = false })
        ≡ settled c (first_usable net c.chain_id urls)
  unfolding dial_urls
  dial_urls-off net [] c e = refl
  dial_urls-off net (url ∷ urls) c e =
      dial_urls-step net url urls (record c { connected = false }) e
      ∙ (elim (Option-cases (usable net c.chain_id url)) [
        | inl unusable ↦
            rw unusable (dial_urls-off net urls c e)
            ∙ sym (ap (settled c) (first_usable_later net c.chain_id url urls unusable))
        | inr (conn, here) ↦
            rw here refl
            ∙ sym (ap (settled c) (first_usable_here net c.chain_id url urls conn here))
      ])

  -- The loop takes the first usable url, and forgets an earlier connection if there is none.
  dial_urls_lem :
      (net : Network Conn) (url : Bytes) (urls : List Bytes) (c : Client Conn)
      → c.current_url ≡ []
      → dial_urls net (url ∷ urls) c ≡ settled c (first_usable net c.chain_id (url ∷ urls))
  dial_urls_lem net url urls c e =
      dial_urls-step net url urls c e ∙ (elim (Option-cases (usable net c.chain_id url)) [
        | inl unusable ↦
            rw unusable (dial_urls-off net urls c e)
            ∙ sym (ap (settled c) (first_usable_later net c.chain_id url urls unusable))
        | inr (conn, here) ↦
            rw here refl
            ∙ sym (ap (settled c) (first_usable_here net c.chain_id url urls conn here))
      ])

  -- A client that `NewClient` made, whatever has been asked of it.
  pub record IsClient (c : Client Conn) : Type 0 where
    pub no_current : c.current_url ≡ []
    pub some_url : (url : Bytes) × (urls : List Bytes) × (c.urls ≡ url ∷ urls)

  -- What a client without a connection does: it takes the first url that is to its chain, and
  -- signals that, if its channel has room or is drained.
  abbrev pub taken : Bool → Client Conn → Option Conn → Got Conn × Client Conn
  taken drains c none = (refused, record c { connected = false })
  taken drains c (some conn) =
      let found = record c { eth_client = some conn; connected = true; recreated = true } in
      if c.sub_loop_initialized
      then if c.signals == 0 || drains
        then (got (some conn), record found { signals = 1 })
        else (hangs, found)
      else (got (some conn), found)

  -- The connection, if it answers with the chain.
  abbrev pub answering : Network Conn → ℕ → Conn → Option Conn
  answering net id conn = elim (net.chain_id conn) [
    | none ↦ none
    | some answered ↦ if answered == id then some conn else none
  ]

  -- What `getClient` should do, by the connection that the client has.
  abbrev pub chosen : (ℕ → Network Conn) → Client Conn → Option Conn → Got Conn × Client Conn
  chosen nets c none = taken (nets 0).drains c (first_usable (nets 0) c.chain_id c.urls)
  chosen nets c (some conn) = elim (answering (nets 0) c.chain_id conn) [
    | some still ↦
        (got ((nets 0).read_again still), record c { connected = true; recreated = false })
    | none ↦
        taken (nets 1).drains (record c { eth_client = none })
          (first_usable (nets 1) c.chain_id c.urls)
  ]

  after_dial-settled :
      (drains : Bool) (c : Client Conn) (o : Option Conn)
      → after_dial drains (settled c o) ≡ taken drains c o
  unfolding after_dial send_resubscribe_signal
  after_dial-settled drains c none = refl
  after_dial-settled drains c (some conn) = ground arith

  after_dial-eq :
      (net : Network Conn) (c : Client Conn)
      → IsClient c
      → after_dial net.drains (dial_urls net c.urls c)
        ≡ taken net.drains c (first_usable net c.chain_id c.urls)
  after_dial-eq net c h =
      let (url, urls, e) = h.some_url in
      ap (after_dial net.drains) (
        ap (λ us. dial_urls net us c) e
        ∙ dial_urls_lem net url urls c h.no_current
        ∙ ap (λ us. settled c (first_usable net c.chain_id us)) (sym e))
      ∙ after_dial-settled net.drains c (first_usable net c.chain_id c.urls)

  check_connection-eq :
      (net : Network Conn) (c : Client Conn) (retry : Option (Got Conn × Client Conn)) (conn : Conn)
      → check_connection net c retry (some conn) ≡ elim (answering net c.chain_id conn) [
        | some still ↦
            some (got (net.read_again still), record c { connected = true; recreated = false })
        | none ↦ retry
      ]
  unfolding check_connection
  check_connection-eq net c retry conn = ground arith

  get_client-none :
      (fuel : ℕ) (nets : ℕ → Network Conn) (c : Client Conn)
      → IsClient c
      → c.eth_client ≡ none
      → get_client (suc fuel) nets c
        ≡ some (taken (nets 0).drains c (first_usable (nets 0) c.chain_id c.urls))
  unfolding get_client check_connection
  get_client-none fuel nets c h e =
      ap
        (check_connection (nets 0) c
          (get_client fuel (λ i. nets (suc i)) (record c { eth_client = none; connected = false })))
        e
      ∙ ap some (after_dial-eq (nets 0) c h)

  taken_off :
      (drains : Bool) (c : Client Conn) (o : Option Conn)
      → taken drains (record c { eth_client = none; connected = false }) o
        ≡ taken drains (record c { eth_client = none }) o
  taken_off drains c none = refl
  taken_off drains c (some conn) = refl

  kept_or :
      (again : Conn → Option Conn) (c : Client Conn) (o : Option Conn)
      (retry : Option (Got Conn × Client Conn)) (r : Got Conn × Client Conn)
      → retry ≡ some r
      → (elim o as (λ x. Option (Got Conn × Client Conn)) [
        | some still ↦ some (got (again still), record c { connected = true; recreated = false })
        | none ↦ retry
      ])
        ≡ some (elim o [
          | some still ↦ (got (again still), record c { connected = true; recreated = false })
          | none ↦ r
        ])
  kept_or again c none retry r e = e
  kept_or again c (some still) retry r e = refl

  pub get_client-eq :
      (fuel : ℕ) (nets : ℕ → Network Conn) (c : Client Conn)
      → IsClient c
      → get_client (suc (suc fuel)) nets c ≡ some (chosen nets c c.eth_client)
  unfolding get_client
  get_client-eq fuel nets c h = elim (Option-cases c.eth_client) [
    | inl e ↦ get_client-none (suc fuel) nets c h e ∙ ap some (ap (chosen nets c) (sym e))
    | inr (conn, e) ↦
        let off = record c { eth_client = none; connected = false } in
        let retry = get_client (suc fuel) (λ i. nets (suc i)) off in
        let looked : retry
            ≡ some (
                taken (nets 1).drains (record c { eth_client = none })
                  (first_usable (nets 1) c.chain_id c.urls)) =
          get_client-none fuel (λ i. nets (suc i)) off
            (record { no_current = h.no_current; some_url = h.some_url }) refl
          ∙ ap some (taken_off (nets 1).drains c (first_usable (nets 1) c.chain_id c.urls)) in
        ap (check_connection (nets 0) c retry) e
        ∙ check_connection-eq (nets 0) c retry conn
        ∙ kept_or (nets 0).read_again c (answering (nets 0) c.chain_id conn) retry _ looked
        ∙ ap some (ap (chosen nets c) (sym e))
  ]
