-- ===== src/Node/Run.antt =====
-- `RunNode` of node/bridge/init.go. What its calls of other services come to is an argument, and so
-- is what the clients' goroutines do while it waits. A chain's number is taken to be below 2 ^ 63.
pub mod Clients
pub mod Watched
pub mod Stays
use relayer.Base.{
  ℕ, suc, ◌%◌, ◌^◌, List, [], ◌∷◌, Bytes, Option, none, some, Bool, true, false, not, ◌&&◌, ◌==◌,
  ℕ_discrete, Outcome, ok, panic, if◌then◌else◌,
}
use relayer.Base.Dict
use relayer.Eth.Client.{Network}
use relayer.Eth.Methods.{Reply, reply, failed, hung, crashed, chain_id}
use relayer.Eth.Watchers.{Contracts, Service}
use relayer.Eth.Watchers
use relayer.Eth.Watchers.Hangs.{Call, run}
use relayer.Eth.Clients.{get_eth_client, close_each}
use relayer.Node.Contracts.{
  BridgeChain, ContractMap, no_contracts, new_bridge, get_contract_address,
}
use relayer.Node.Start.{Node}

-- It returns, with whether its error is nil; or the process exits; or neither.
pub data RunEnd : Type 0 where
  returned : Bool → RunEnd
  exits panics hangs : RunEnd

-- What the calls of `RunNode` find; a Bool is whether a call has no error.
pub record Running {Conn : Type 0} (contracts : Contracts Conn) : Type 0 where
  pub signer_key : Bool
  pub host : Bool
  pub bls_id : Bool
  pub dht : Bool
  pub gsn_client : Bool
  pub node_exists : Option Bool
  pub pub_sub : Bool
  pub priv_key : Bool
  -- whether a watcher of a contract's address can be made, and its key
  pub epoch_watcher : Bytes → Bool
  pub epoch_key : Bytes → Bytes
  pub request_watcher : Bytes → Bool
  pub request_key : Bytes → Bytes
  pub epoch_nets : ℕ → Network Conn
  pub epoch_started : Outcome Bool
  pub ledger : Bool
  -- the networks of the i-th chain, for its watcher and its number
  pub request_nets : ℕ → ℕ → Network Conn
  pub chain_nets : ℕ → ℕ → Network Conn
  -- what happens on each chain while the epoch starts, and afterwards
  pub during_epoch : ℕ → List (Call contracts)
  pub before_close : ℕ → List (Call contracts)

-- none where it goes on
unfoldable pub added : Reply (Unit {0}) → Option RunEnd
added (reply u) = none
added failed = none
added hung = some hangs
added crashed = some panics

unfoldable pub same_chain : ℕ → Reply ℕ → Option RunEnd
same_chain id (reply net_id) = if id == net_id then none else some (returned false)
same_chain id failed = none
same_chain id hung = some hangs
same_chain id crashed = some panics

module _ {Conn : Type 0} (contracts : Contracts Conn) where
  -- the clients after the calls on each
  unfoldable pub after :
      (ℕ → List (Call contracts)) → List (ℕ × Service Conn) → List (ℕ × Service Conn)
  after calls [] = []
  after calls ((id, s) ∷ clients) = (id, run contracts (calls id) s) ∷ after calls clients

  -- the body of the loop over the chains
  unfoldable pub watch_requests :
      BridgeChain
      → Running contracts
      → (ℕ → Network Conn)
      → (ℕ → Network Conn)
      → List (ℕ × Service Conn)
      → Option RunEnd × List (ℕ × Service Conn)
  watch_requests chain a nets ids clients =
      if a.request_watcher chain.bridge_address
      then elim (get_eth_client chain.identifier clients) [
        | none ↦ (some (returned false), clients)
        | some s ↦
            let r = Watchers.add_watcher contracts (a.request_key chain.bridge_address) nets s in
            let c = chain_id ids r.1.client in
            elim (added r.0) [
              | some end ↦ (some end, Dict.put ℕ_discrete (chain.identifier % 2 ^ 64) r.1 clients)
              | none ↦ (
                same_chain chain.identifier c.0,
                Dict.put ℕ_discrete (chain.identifier % 2 ^ 64) (record r.1 { client = c.1 })
                    clients,
              )
            ]
      ]
      else (some (returned false), clients)

  -- the loop, after which the process runs until it exits
  unfoldable pub watch_all :
      List BridgeChain
      → Running contracts
      → (ℕ → ℕ → Network Conn)
      → (ℕ → ℕ → Network Conn)
      → List (ℕ × Service Conn)
      → RunEnd × List (ℕ × Service Conn)
  watch_all [] a nets ids clients = (exits, clients)
  watch_all (chain ∷ chains) a nets ids clients =
      let r = watch_requests chain a (nets 0) (ids 0) clients in
      let rest = watch_all chains a (λ i. nets (suc i)) (λ i. ids (suc i)) r.1 in
      elim r.0 [ some end ↦ (end, r.1) | none ↦ rest ]

  unfoldable pub after_epoch :
      List BridgeChain
      → Running contracts
      → List (ℕ × Service Conn)
      → Outcome Bool
      → RunEnd × List (ℕ × Service Conn)
  after_epoch chains a clients (panic cause) = (panics, clients)
  after_epoch chains a clients (ok started) =
      if started && a.ledger
      then watch_all chains a a.request_nets a.chain_nets clients
      else (returned false, clients)

  -- from the watcher of epochs on
  unfoldable pub watch_epochs :
      ℕ
      → List BridgeChain
      → Running contracts
      → Bytes
      → List (ℕ × Service Conn)
      → RunEnd × List (ℕ × Service Conn)
  watch_epochs reg_chain_id chains a address clients =
      if a.epoch_watcher address
      then elim (get_eth_client reg_chain_id clients) [
        | none ↦ (returned false, clients)
        | some s ↦
            let r = Watchers.add_watcher contracts (a.epoch_key address) a.epoch_nets s in
            let watched = Dict.put ℕ_discrete (reg_chain_id % 2 ^ 64) r.1 clients in
            elim (added r.0) [
              | some end ↦ (end, watched)
              | none ↦ after_epoch chains a (after a.during_epoch watched) a.epoch_started
            ]
      ]
      else (returned false, clients)

  -- the branch of a node that is registered
  unfoldable pub run_registered :
      {Contract : Type 0}
      → ℕ
      → List BridgeChain
      → Running contracts
      → ContractMap Contract
      → List (ℕ × Service Conn)
      → RunEnd × List (ℕ × Service Conn)
  run_registered reg_chain_id chains a bridge clients =
      if a.pub_sub && a.priv_key
      then elim (get_contract_address reg_chain_id bridge) [
        | none ↦ (returned false, clients)
        | some address ↦ watch_epochs reg_chain_id chains a address clients
      ]
      else (returned false, clients)

  -- from the host on
  unfoldable pub run_with :
      {Contract : Type 0}
      → ℕ
      → List BridgeChain
      → Running contracts
      → ContractMap Contract
      → List (ℕ × Service Conn)
      → RunEnd × List (ℕ × Service Conn)
  run_with reg_chain_id chains a bridge clients =
      if not a.host
      then (exits, clients)
      else if not (a.bls_id && a.dht)
      then (returned false, clients)
      else if not a.gsn_client
      then (exits, clients)
      else elim a.node_exists [
        | none ↦ (exits, clients)
        | some exists ↦
            if exists
            then run_registered reg_chain_id chains a bridge clients
            else (returned true, clients)
      ]

  -- what is deferred: the closing of the clients, also after a panic, but not on an exit
  unfoldable pub deferred : RunEnd → Running contracts → List (ℕ × Service Conn) → RunEnd
  deferred exits a clients = exits
  deferred hangs a clients = hangs
  deferred panics a clients = elim (close_each contracts (after a.before_close clients)).0 [
    | hung ↦ hangs
    | _ ↦ panics
  ]
  deferred (returned b) a clients = elim (close_each contracts (after a.before_close clients)).0 [
    | reply closed ↦ returned b
    | failed ↦ returned b
    | hung ↦ hangs
    | crashed ↦ panics
  ]

module _ {Conn Contract Filterer Forwarder Bridge : Type 0} (contracts : Contracts Conn)
    (make : Bytes → Service Conn → Option Bridge) where
  -- `RunNode` up to what is deferred, with the node that `NewNodeWithClients` makes
  unfoldable pub run_body :
      ℕ
      → List BridgeChain
      → Running contracts
      → Option (Node Conn Contract Filterer Forwarder)
      → RunEnd × List (ℕ × Service Conn)
  run_body reg_chain_id chains a made =
      if not a.signer_key then (returned false, []) else elim made [
        | none ↦ (exits, [])
        | some n ↦ elim (new_bridge make chains n.clients no_contracts) [
          | none ↦ (exits, n.clients)
          | some bridge ↦ run_with contracts reg_chain_id chains a bridge n.clients
        ]
      ]

  unfoldable pub run_node :
      ℕ
      → List BridgeChain
      → Running contracts
      → Option (Node Conn Contract Filterer Forwarder)
      → RunEnd
  run_node reg_chain_id chains a made =
      let r = run_body reg_chain_id chains a made in deferred contracts r.0 a r.1
