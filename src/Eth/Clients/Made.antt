-- ===== src/Eth/Clients/Made.antt =====
-- What `NewClients` of extChains/clients.go makes.
use relayer.Base.{
  ℕ, ◌%◌, ◌^◌, ◌==◌, List, [], ◌∷◌, Bytes, Option, none, some, false, ℕ_discrete, length, ◌≡◌, refl,
  sym, ◌∙◌, subst, inl, inr, Option-cases, or_none, ite_elim, if_cases,
}
use relayer.Base.Dict
use relayer.Eth.Client.{Config, Client, new_client}
use relayer.Eth.Watchers.{Contracts, Service}
use relayer.Eth.Watchers.Hangs.{IsService}
use relayer.Eth.Clients.{service_of, new_clients, get_eth_client}

module _ {Conn : Type 0} (contracts : Contracts Conn) where
  -- The client of a chain is of that chain, is fit to be called, and is not connected yet.
  pub record IsNew (id : ℕ) (s : Service Conn) : Type 0 where
    pub own_chain : s.client.chain_id ≡ id
    pub service : IsService contracts s
    pub unconnected : s.client.eth_client ≡ none

  nonempty :
      (xs : List Bytes) → (length xs == 0) ≡ false → (y : Bytes) × (ys : List Bytes) × (xs ≡ y ∷ ys)
  nonempty [] e = absurd (cc)
  nonempty (x ∷ xs) e = (x, xs, refl)

  pub same_some : {A : Type 0} {x y : A} → some x ≡ some y → x ≡ y
  same_some e = cc

  pub new_client-IsNew :
      (cfg : Config) (c : Client Conn)
      → new_client cfg ≡ some c
      → IsNew cfg.identifier (service_of c)
  unfolding new_client
  new_client-IsNew cfg c e =
      if_cases (λ (o : Option (Client Conn)). o ≡ some c → IsNew cfg.identifier (service_of c))
        (length cfg.urls == 0) none _ (λ no_urls q. absurd (cc))
        (λ some_urls q.
          let same = same_some q in
          subst (λ (d : Client Conn). IsNew cfg.identifier (service_of d)) same
            (record {
              own_chain = refl;
              service = record {
                fit = record { no_current = refl; some_url = nonempty cfg.urls some_urls };
                counted = refl;
              };
              unconnected = refl;
            }))
        e

  AllNew : List (ℕ × Service Conn) → Type 0
  AllNew clients =
      (id : ℕ) (s : Service Conn) → Dict.get ℕ_discrete id clients ≡ some s → IsNew id s

  put-AllNew :
      (id : ℕ) (s : Service Conn) (clients : List (ℕ × Service Conn))
      → IsNew id s
      → AllNew clients
      → AllNew (Dict.put ℕ_discrete id s clients)
  unfolding AllNew
  put-AllNew id s clients n a i t e =
      ite_elim (λ (o : Option (Service Conn)). o ≡ some t → IsNew i t) (ℕ_discrete id i) (some s)
        (Dict.get ℕ_discrete i clients)
        (λ here q.
          subst (λ (v : Service Conn). IsNew i v) (same_some q) (subst (λ j. IsNew j s) here n))
        (λ other q. a i t q) (sym (Dict.get-put ℕ_discrete i id s clients) ∙ e)

  pub new_clients_again :
      (cfg : Config) (cfgs : List Config) (clients : List (ℕ × Service Conn)) (s : Service Conn)
      → Dict.get ℕ_discrete cfg.identifier clients ≡ some s
      → new_clients (cfg ∷ cfgs) clients ≡ new_clients cfgs clients
  unfolding new_clients
  new_clients_again cfg cfgs clients s e = rw (e, new_clients) refl

  pub new_clients_next :
      (cfg : Config) (cfgs : List Config) (clients : List (ℕ × Service Conn))
      → Dict.get ℕ_discrete cfg.identifier clients ≡ none
      → new_clients (cfg ∷ cfgs) clients ≡ elim (new_client cfg) [
        | none ↦ none
        | some c ↦ new_clients cfgs (Dict.put ℕ_discrete cfg.identifier (service_of c) clients)
      ]
  unfolding new_clients
  new_clients_next cfg cfgs clients e = rw (e, new_clients) refl

  new_clients-by :
      (cfgs : List Config) (clients made : List (ℕ × Service Conn))
      → AllNew clients
      → new_clients cfgs clients ≡ some made
      → AllNew made
  unfolding new_clients
  new_clients-by [] clients made a e = subst AllNew (same_some e) a
  new_clients-by (cfg ∷ cfgs) clients made a e =
      elim (Option-cases (Dict.get ℕ_discrete cfg.identifier clients)) [
        | inr (s, there) ↦
            new_clients-by cfgs clients made a
              (sym (new_clients_again cfg cfgs clients s there) ∙ e)
        | inl fresh ↦
            let (c, made_one, rest) =
              or_none (new_client cfg) _ made (sym (new_clients_next cfg cfgs clients fresh) ∙ e) in
            new_clients-by cfgs (Dict.put ℕ_discrete cfg.identifier (service_of c) clients) made
              (put-AllNew cfg.identifier (service_of c) clients (new_client-IsNew cfg c made_one) a)
              rest
      ]

  -- Whatever the configuration, the client that `GetEthClient` finds among those of `NewClients` is
  -- of the chain that was asked for, by its low 64 bits; it can be called, its loop is not counted,
  -- and it has no connection yet.
  pub new_clients_lem :
      (cfgs : List Config) (made : List (ℕ × Service Conn)) (chain : ℕ) (s : Service Conn)
      → new_clients cfgs [] ≡ some made
      → get_eth_client chain made ≡ some s
      → IsNew (chain % 2 ^ 64) s
  unfolding get_eth_client AllNew Dict.get
  new_clients_lem cfgs made chain s e f =
      new_clients-by cfgs [] made (λ i t q. absurd (cc)) e (chain % 2 ^ 64) s f
