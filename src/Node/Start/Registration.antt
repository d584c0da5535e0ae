-- ===== src/Node/Start/Registration.antt =====
-- What `RegisterNode` of node/bridge/init.go comes to.
use relayer.Base.{
  ℕ, ℕ_discrete, List, [], Bytes, Option, none, some, Bool, true, false, ok, panic, nil_dereference,
  or_none, ◌≡◌, ◌≢◌, arith, map, subst, ◌&&◌,
}
use relayer.Base.Dict
use relayer.Eth.Watchers.{Service}
use relayer.Eth.Clients.{get_eth_client, new_clients}
use relayer.Node.Contracts.{
  BridgeChain, Registry, new_registry, new_forwarder, no_contracts, node_registry_session,
  can_use_gsn,
}
use relayer.Node.Start.{
  Wrappers, Node, client_config, chains_by_id, with_registry, new_node_with_clients, Registering,
  Registered, create_node, known, await_registration, create_by_session, register_new,
  register_node,
}

module _ {Conn Contract Filterer Forwarder : Type 0}
    (w : Wrappers Conn Contract Filterer Forwarder) where
  new_registry_lem :
      (address : Bytes) (made : Option Contract) (filterer : Option Filterer)
      (r : Registry Conn Contract Filterer)
      → new_registry address made filterer ≡ some r
      → r.client ≡ none
  unfolding new_registry
  new_registry_lem address (some made) (some filterer) r e = ground arith
  new_registry_lem address (some made) none r e = absurd (ground arith)
  new_registry_lem address none filterer r e = absurd (ground arith)

  new_node_with_clients_lem :
      (reg_chain_id : ℕ) (chains : List BridgeChain) (n : Node Conn Contract Filterer Forwarder)
      → new_node_with_clients w reg_chain_id chains ≡ some n
      → n.registry.client ≡ none
  unfolding new_node_with_clients with_registry
  new_node_with_clients_lem reg_chain_id chains n e =
      let (clients, made, e₁) = or_none (new_clients (map client_config chains) []) _ n e in
      let (reg_chain, found, e₂) =
        or_none (Dict.get ℕ_discrete reg_chain_id (chains_by_id chains [])) _ n e₁ in
      let (reg_client, there, e₃) = or_none (get_eth_client reg_chain_id clients) _ n e₂ in
      let (registry, got, e₄) = or_none (new_registry reg_chain.node_registry_address _ _) _ n e₃ in
      let (forwarder, f, e₅) =
        or_none (new_forwarder w.new_forwarder chains clients no_contracts) _ n e₄ in
      let same : registry ≡ n.registry = cc e₅ in
      subst (λ (r : Registry Conn Contract Filterer). r.client ≡ none) same
        (new_registry_lem _ _ _ registry got)

  -- `RegisterNode` with the node that `NewNodeWithClients` made: if the node is not yet in its
  -- registry, or the registry gives an error, and what comes before succeeds, and the chain of the
  -- registry cannot be served by the gas station, then it always panics, since the registry has no
  -- client. So it never sends a transaction of its own, but only over the gas station.
  pub register_node_lem :
      {Opts Hash : Type 0} (reg_chain_id : ℕ) (chains : List BridgeChain) (use_gsn : Bool)
      (a : Registering Conn Opts Hash) (n : Node Conn Contract Filterer Forwarder)
      → new_node_with_clients w reg_chain_id chains ≡ some n
      → ((r : Registered Hash) (hash : Hash)
          → register_node reg_chain_id use_gsn a (some n) ≡ ok r
          → r.sent ≡ some hash
          → (a.over_gsn ≡ some hash)
            × (can_use_gsn reg_chain_id n.forwarder ≡ true)
            × (use_gsn ≡ true))
        × ((client : Service Conn)
            → get_eth_client reg_chain_id n.clients ≡ some client
            → can_use_gsn reg_chain_id n.forwarder ≡ false
            → (a.signer_key && a.public_key && a.host && a.token) ≡ true
            → (use_gsn ≡ true → (a.dht && a.gsn_client && a.gsn_discovered) ≡ true)
            → a.node_exists ≢ some true
            → register_node reg_chain_id use_gsn a (some n) ≡ panic nil_dereference)
  unfolding register_node register_new create_node node_registry_session known await_registration
      create_by_session
  register_node_lem reg_chain_id chains use_gsn a n e =
      let no_client = new_node_with_clients_lem reg_chain_id chains n e in
      (
        λ r hash q s. ground (arith, no_client),
        λ client there no_gsn before gsn fresh. ground (arith, no_client),
      )
