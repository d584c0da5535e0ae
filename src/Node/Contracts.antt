-- ===== src/Node/Contracts.antt =====
-- node/contracts: the contracts of the chains that a node calls. The bindings of package wrappers are
-- of any type, and what makes them is an argument, as is what a contract answers.
pub mod Made
use relayer.Base.{
  ℕ, ◌%◌, ◌^◌, List, [], ◌∷◌, Bytes, zeros, bytes_discrete, Option, none, some, Bool, true, false,
  not, ◌||◌, ℕ_discrete, Outcome, ok, panic, explicit_panic, nil_dereference, ite, if◌then◌else◌,
  ◌>>=◌,
}
use relayer.Base.Dict
use relayer.Eth.Watchers.{Service}
use relayer.Eth.Clients.{get_eth_client}

-- the fields of a chain's configuration that are read; an address has 20 bytes
pub record BridgeChain : Type 0 where
  pub identifier : ℕ
  pub rpc_urls : List Bytes
  pub call_timeout : ℕ
  pub dial_timeout : ℕ
  pub block_timeout : ℕ
  pub bridge_address : Bytes
  pub node_registry_address : Bytes
  pub forwarder_address : Bytes
  pub use_gsn : Bool

-- the structs `bridge` and `forwarder`, which have the same fields
pub record ContractMap (Contract : Type 0) : Type 0 where
  pub addresses : List (ℕ × Bytes)
  pub contracts : List (ℕ × Contract)

abbrev pub zero_address : Bytes
zero_address = zeros 20

unfoldable pub address_is_zero : Bytes → Bool
address_is_zero address = ite (bytes_discrete address zero_address) true false

unfoldable pub skips_forwarder : BridgeChain → Bool
skips_forwarder chain = address_is_zero chain.forwarder_address || not chain.use_gsn

module _ {Conn Contract : Type 0} (make : Bytes → Service Conn → Option Contract) where
  -- the loops of `NewBridge` and `NewForwarder`; none for an error
  unfoldable pub new_bridge :
      List BridgeChain
      → List (ℕ × Service Conn)
      → ContractMap Contract
      → Option (ContractMap Contract)
  new_bridge [] clients b = some b
  new_bridge (chain ∷ chains) clients b = elim (get_eth_client chain.identifier clients) [
    | none ↦ none
    | some client ↦ elim (make chain.bridge_address client) [
      | none ↦ none
      | some contract ↦ new_bridge chains clients (record {
        addresses = Dict.put ℕ_discrete chain.identifier chain.bridge_address b.addresses;
        contracts = Dict.put ℕ_discrete chain.identifier contract b.contracts;
      })
    ]
  ]

  unfoldable pub new_forwarder :
      List BridgeChain
      → List (ℕ × Service Conn)
      → ContractMap Contract
      → Option (ContractMap Contract)
  new_forwarder [] clients f = some f
  new_forwarder (chain ∷ chains) clients f =
      let skipped = new_forwarder chains clients f in
      elim (get_eth_client chain.identifier clients) [
        | none ↦ none
        | some client ↦
            if skips_forwarder chain then skipped else elim (make chain.forwarder_address client) [
              | none ↦ none
              | some contract ↦ new_forwarder chains clients (record {
                addresses =
                    Dict.put ℕ_discrete chain.identifier chain.forwarder_address f.addresses;
                contracts = Dict.put ℕ_discrete chain.identifier contract f.contracts;
              })
            ]
      ]

module _ {Contract : Type 0} where
  abbrev pub no_contracts : ContractMap Contract
  no_contracts = record { addresses = []; contracts = [] }

  -- `GetBridge` and `GetForwarder`; a chain is looked up by its low 64 bits, none for an error
  unfoldable pub get_contract : ℕ → ContractMap Contract → Option Contract
  get_contract chain m = Dict.get ℕ_discrete (chain % 2 ^ 64) m.contracts

  -- `GetBridgeAddress` and `GetForwarderAddress`
  unfoldable pub get_contract_address : ℕ → ContractMap Contract → Option Bytes
  get_contract_address chain m = Dict.get ℕ_discrete (chain % 2 ^ 64) m.addresses

  unfoldable pub can_use_gsn : ℕ → ContractMap Contract → Bool
  can_use_gsn chain m = elim (Dict.get ℕ_discrete (chain % 2 ^ 64) m.contracts) [
    | none ↦ false
    | some contract ↦ true
  ]

-- `client` is an interface, none for nil.
pub record Registry (Conn Contract Filterer : Type 0) : Type 0 where
  pub client : Option (Service Conn)
  pub address : Bytes
  pub node_registry : Contract
  pub node_registry_filter : Filterer

module _ {Conn Contract Filterer : Type 0} where
  -- with what the two constructors of wrappers return; `client` is not set
  unfoldable pub new_registry :
      Bytes → Option Contract → Option Filterer → Option (Registry Conn Contract Filterer)
  new_registry address made filterer = elim made [
    | none ↦ none
    | some node_registry ↦ elim filterer [
      | none ↦ none
      | some node_registry_filter ↦ some (record {
        client = none;
        address = address;
        node_registry = node_registry;
        node_registry_filter = node_registry_filter;
      })
    ]
  ]

  -- with what `CallOpt` of a client returns, none for an error, as is the result
  unfoldable pub node_registry_session :
      {Opts : Type 0}
      → (Service Conn → Option Opts)
      → Registry Conn Contract Filterer
      → Outcome (Option (Contract × Opts))
  node_registry_session call_opt n = elim n.client [
    | none ↦ panic nil_dereference
    | some client ↦ elim (call_opt client) [
      | none ↦ ok none
      | some opts ↦ ok (some (n.node_registry, opts))
    ]
  ]

-- the loop of `NodeRegistryPublicKeys`, over the keys of the nodes
unfoldable pub unmarshal_keys :
    {Key : Type 0} → (Bytes → Option Key) → List Bytes → Outcome (List Key)
unmarshal_keys unmarshal [] = ok []
unmarshal_keys unmarshal (node ∷ nodes) = elim (unmarshal node) [
  | none ↦ panic explicit_panic
  | some key ↦ unmarshal_keys unmarshal nodes >>= λ keys. ok (key ∷ keys)
]

-- with what `GetNodes` answers; none for an error
unfoldable pub node_registry_public_keys :
    {Key : Type 0} → (Bytes → Option Key) → Option (List Bytes) → Outcome (Option (List Key))
node_registry_public_keys unmarshal none = ok none
node_registry_public_keys unmarshal (some nodes) =
    unmarshal_keys unmarshal nodes >>= λ keys. ok (some keys)

-- with the owner that `GetNode` answers, none for an error
unfoldable pub node_registry_node_exists : Option Bytes → Bool
node_registry_node_exists none = false
node_registry_node_exists (some owner) = not (address_is_zero owner)
