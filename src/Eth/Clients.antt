-- ===== src/Eth/Clients.antt =====
-- extChains/clients.go: the clients of the chains, by chain.
pub mod Made
use relayer.Base.{
  ℕ, ◌%◌, ◌^◌, List, [], ◌∷◌, Bytes, Option, none, some, Bool, true, false, ℕ_discrete,
}
use relayer.Base.Dict
use relayer.Eth.Client.{Network, Config, Client, new_client}
use relayer.Eth.Methods.{Reply, reply, failed, hung, crashed}
use relayer.Eth.Watchers.{Watcher, Contracts, Service}
use relayer.Eth.Watchers

module _ {Conn : Type 0} where
  -- what `NewClient` sets beside the client
  abbrev pub service_of : Client Conn → Service Conn
  service_of c = record {
    client = c;
    watchers = [];
    reconnect_on_timer = false;
    cancelled = false;
    events = 0;
    loops = 0;
  }

  -- the loop of `NewClients`; none for an error
  unfoldable pub new_clients :
      List Config → List (ℕ × Service Conn) → Option (List (ℕ × Service Conn))
  new_clients [] clients = some clients
  new_clients (cfg ∷ cfgs) clients =
      let skipped = new_clients cfgs clients in
      elim (Dict.get ℕ_discrete cfg.identifier clients) [
        | some s ↦ skipped
        | none ↦ elim (new_client cfg) [
          | none ↦ none
          | some c ↦ new_clients cfgs (Dict.put ℕ_discrete cfg.identifier (service_of c) clients)
        ]
      ]

  -- a chain is an arbitrarily large number, and is looked up by its low 64 bits
  unfoldable pub is_eth : ℕ → List (ℕ × Service Conn) → Bool
  is_eth chain clients = elim (Dict.get ℕ_discrete (chain % 2 ^ 64) clients) [
    | none ↦ false
    | some s ↦ true
  ]

  -- none for `ErrUnsupported`
  unfoldable pub get_eth_client : ℕ → List (ℕ × Service Conn) → Option (Service Conn)
  get_eth_client chain clients = Dict.get ℕ_discrete (chain % 2 ^ 64) clients

module _ {Conn : Type 0} (contracts : Contracts Conn) where
  -- a watcher for a chain without a client is passed over
  unfoldable pub add_watcher :
      ℕ
      → Bytes
      → (ℕ → Network Conn)
      → List (ℕ × Service Conn)
      → Reply (Unit {0}) × List (ℕ × Service Conn)
  add_watcher chain key nets clients = elim (Dict.get ℕ_discrete (chain % 2 ^ 64) clients) [
    | none ↦ (reply tt, clients)
    | some s ↦
        let r = Watchers.add_watcher contracts key nets s in
        (r.0, Dict.put ℕ_discrete (chain % 2 ^ 64) r.1 clients)
  ]

  -- `Close`; the clients after one whose `Close` hangs are not reached
  unfoldable pub close_each : List (ℕ × Service Conn) → Reply (Unit {0}) × List (ℕ × Service Conn)
  close_each [] = (reply tt, [])
  close_each ((id, s) ∷ clients) =
      let r = Watchers.close contracts s in
      let rest = close_each clients in
      elim r.0 [
        | reply closed ↦ rest
        | failed ↦ rest
        | hung ↦ (hung, (id, r.1) ∷ clients)
        | crashed ↦ (crashed, (id, r.1) ∷ clients)
      ]
