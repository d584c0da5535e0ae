-- ===== src/Node/Start.antt =====
-- The making of a bridge node and its registration, of node/bridge/init.go. Key files, the host, the
-- discovery of peers and what a contract or another node answers are arguments.
pub mod Registration
use relayer.Base.{
  ℕ, List, [], ◌∷◌, Bytes, Option, none, some, Bool, true, false, not, ◌&&◌, ltb, ℕ_discrete,
  Outcome, ok, panic, fatal, explicit_panic, if◌then◌else◌, ◌>>=◌, map,
}
use relayer.Base.Dict
use relayer.Eth.Client.{Config, set_default}
use relayer.Eth.Watchers.{Service}
use relayer.Eth.Clients.{new_clients, get_eth_client}
use relayer.Node.Contracts.{
  BridgeChain, ContractMap, Registry, no_contracts, new_forwarder, new_registry,
  node_registry_session, can_use_gsn,
}

-- the configuration of a chain's client
unfoldable pub client_config : BridgeChain → Config
client_config chain =
    let c = set_default (record {
      call_timeout = 0;
      dial_timeout = 0;
      block_timeout = 0;
      identifier = chain.identifier;
      urls = chain.rpc_urls;
    }) in
    record c {
      call_timeout = if ltb 0 chain.call_timeout then chain.call_timeout else c.call_timeout;
      dial_timeout = if ltb 0 chain.dial_timeout then chain.dial_timeout else c.dial_timeout;
      block_timeout = if ltb 0 chain.block_timeout then chain.block_timeout else c.block_timeout;
    }

-- the map `chains`; a later entry takes the place of one with the same identifier
unfoldable pub chains_by_id : List BridgeChain → List (ℕ × BridgeChain) → List (ℕ × BridgeChain)
chains_by_id [] m = m
chains_by_id (chain ∷ chains) m = chains_by_id chains (Dict.put ℕ_discrete chain.identifier chain m)

-- the constructors of package wrappers that are called
pub record Wrappers (Conn Contract Filterer Forwarder : Type 0) : Type 0 where
  pub new_node_registry : Bytes → Service Conn → Option Contract
  pub new_node_registry_filterer : Bytes → Service Conn → Option Filterer
  pub new_forwarder : Bytes → Service Conn → Option Forwarder

-- what `NewNodeWithClients` sets of a node
pub record Node (Conn Contract Filterer Forwarder : Type 0) : Type 0 where
  pub clients : List (ℕ × Service Conn)
  pub registry : Registry Conn Contract Filterer
  pub forwarder : ContractMap Forwarder

module _ {Conn Contract Filterer Forwarder : Type 0}
    (w : Wrappers Conn Contract Filterer Forwarder) where
  -- its last steps, from the client of the registry's chain
  unfoldable pub with_registry :
      List BridgeChain
      → List (ℕ × Service Conn)
      → BridgeChain
      → Service Conn
      → Option (Node Conn Contract Filterer Forwarder)
  with_registry chains clients reg_chain reg_client =
      let address = reg_chain.node_registry_address in
      elim (new_registry address (w.new_node_registry address reg_client)
        (w.new_node_registry_filterer address reg_client)) [
          | none ↦ none
          | some registry ↦ elim (new_forwarder w.new_forwarder chains clients no_contracts) [
            | none ↦ none
            | some forwarder ↦
                some (record { clients = clients; registry = registry; forwarder = forwarder })
          ]
        ]

  -- none for an error
  unfoldable pub new_node_with_clients :
      ℕ → List BridgeChain → Option (Node Conn Contract Filterer Forwarder)
  new_node_with_clients reg_chain_id chains = elim (new_clients (map client_config chains) []) [
    | none ↦ none
    | some clients ↦ elim (Dict.get ℕ_discrete reg_chain_id (chains_by_id chains [])) [
      | none ↦ none
      | some reg_chain ↦ elim (get_eth_client reg_chain_id clients) [
        | none ↦ none
        | some reg_client ↦ with_registry chains clients reg_chain reg_client
      ]
    ]
  ]

-- What the calls of `RegisterNode` find; a Bool is whether a call has no error.
pub record Registering (Conn Opts Hash : Type 0) : Type 0 where
  pub signer_key : Bool
  pub public_key : Bool
  pub host : Bool
  pub dht : Bool
  pub gsn_client : Bool
  pub gsn_discovered : Bool
  -- whether the registry has the node; none for an error
  pub node_exists : Option Bool
  pub token : Bool
  pub over_gsn : Option Hash
  pub call_opt : Service Conn → Option Opts
  pub create_relayer : Opts → Option Hash
  -- whether `WaitTransaction` and the reading of the event have no error
  pub waited : Bool
  pub filtered : Bool

-- what it returns: whether the error is nil; and the transaction that it sent, none for none
pub record Registered (Hash : Type 0) : Type 0 where
  pub succeeded : Bool
  pub sent : Option Hash

unfoldable pub known : Option Bool → Bool
known none = false
known (some exists) = exists

abbrev pub refused : {Hash : Type 0} → Registered Hash
refused = record { succeeded = false; sent = none }

module _ {Conn Opts Hash : Type 0} where
  unfoldable pub create_by_session :
      {Contract : Type 0}
      → Registering Conn Opts Hash
      → Option (Contract × Opts)
      → Outcome (Option Hash)
  create_by_session a none = ok none
  create_by_session a (some (registry, opts)) = ok (a.create_relayer opts)

  unfoldable pub await_registration :
      Registering Conn Opts Hash → Option Hash → Outcome (Registered Hash)
  await_registration a none = ok refused
  await_registration a (some hash) =
      ok (record { succeeded = a.waited && a.filtered; sent = some hash })

module _ {Conn Contract Filterer Forwarder Opts Hash : Type 0} where
  -- the sending, by the gas station or with the session of the registry; none for an error
  unfoldable pub create_node :
      ℕ
      → Bool
      → Registering Conn Opts Hash
      → Node Conn Contract Filterer Forwarder
      → Outcome (Option Hash)
  create_node reg_chain_id use_gsn a n =
      if can_use_gsn reg_chain_id n.forwarder && use_gsn
      then ok a.over_gsn
      else node_registry_session a.call_opt n.registry >>= create_by_session a

  -- after the client of the registry's chain was found
  unfoldable pub register_new :
      ℕ
      → Bool
      → Registering Conn Opts Hash
      → Node Conn Contract Filterer Forwarder
      → Outcome (Registered Hash)
  register_new reg_chain_id use_gsn a n =
      -- an error of the registry is overwritten
      if known a.node_exists
      then ok (record { succeeded = true; sent = none })
      else if a.token
      then create_node reg_chain_id use_gsn a n >>= await_registration a
      else ok refused

  -- `RegisterNode`, with the node that `NewNodeWithClients` makes, and whether the gas station is
  -- configured
  unfoldable pub register_node :
      ℕ
      → Bool
      → Registering Conn Opts Hash
      → Option (Node Conn Contract Filterer Forwarder)
      → Outcome (Registered Hash)
  register_node reg_chain_id use_gsn a made = if not a.signer_key then ok refused else elim made [
    | none ↦ panic fatal
    | some n ↦
        if not a.public_key
        then ok refused
        else if not a.host
        then panic explicit_panic
        else if use_gsn && not (a.dht && a.gsn_client && a.gsn_discovered)
        then ok refused
        else elim (get_eth_client reg_chain_id n.clients) [
          | none ↦ ok refused
          | some client ↦ register_new reg_chain_id use_gsn a n
        ]
  ]
