-- ===== src/Tests/Start.antt =====
-- The contracts and the registration of a node at small inputs. A connection is a number, and a
-- contract is the address that it was made with.
use relayer.Base.{
  ℕ, ◌%◌, ◌^◌, List, [], ◌∷◌, Bytes, zeros, bytes_discrete, ℕ_discrete, Option, none, some, is_some,
  Bool, true, false, ◌&&◌, ok, panic, explicit_panic, nil_dereference, ◌≡◌, ◌≢◌, refl,
}
use relayer.Base.Dict
use relayer.Eth.Client.{set_default, new_client}
use relayer.Eth.Watchers.{Service}
use relayer.Eth.Clients.{service_of, new_clients, get_eth_client}
use relayer.Node.Contracts.{
  BridgeChain, ContractMap, no_contracts, address_is_zero, skips_forwarder, new_bridge,
  new_forwarder, get_contract, get_contract_address, can_use_gsn, new_registry,
  node_registry_session, unmarshal_keys, node_registry_public_keys, node_registry_node_exists,
}
use relayer.Node.Contracts.Made.{configured, new_forwarder_lem}
use relayer.Node.Start.{
  Wrappers, Node, client_config, chains_by_id, with_registry, new_node_with_clients, Registering,
  Registered, create_by_session, create_node, known, await_registration, register_new,
  register_node,
}
use relayer.Node.Start.Registration.{register_node_lem}

program : Unit {0}
unfolding set_default new_client new_clients get_eth_client address_is_zero skips_forwarder
    new_bridge new_forwarder get_contract get_contract_address can_use_gsn new_registry
    node_registry_session unmarshal_keys node_registry_public_keys node_registry_node_exists
    configured client_config chains_by_id with_registry new_node_with_clients create_by_session
    create_node known await_registration register_new register_node Dict.get Dict.put Dict.delete
    ℕ_discrete bytes_discrete
program = tt

abbrev chain : ℕ → Bytes → Bool → BridgeChain
chain identifier forwarder use_gsn = record {
  identifier = identifier;
  rpc_urls = (1 ∷ []) ∷ [];
  call_timeout = 5;
  dial_timeout = 0;
  block_timeout = 0;
  bridge_address = 8 ∷ [];
  node_registry_address = 9 ∷ [];
  forwarder_address = forwarder;
  use_gsn = use_gsn;
}

abbrev client : ℕ → Service ℕ
client identifier = service_of (record {
  eth_client = none;
  chain_id = identifier;
  call_timeout = 5;
  dial_timeout = 10;
  block_timeout = 120;
  connected = false;
  recreated = false;
  sub_loop_initialized = false;
  signals = 0;
  current_url = [];
  urls = (1 ∷ []) ∷ [];
})

abbrev pub chains : List BridgeChain
chains = chain 1 (6 ∷ []) false ∷ chain 2 (7 ∷ []) true ∷ []

abbrev clients : List (ℕ × Service ℕ)
clients = (2, client 2) ∷ (1, client 1) ∷ []

abbrev pub make : Bytes → Service ℕ → Option Bytes
make address s = some address

abbrev forwarders : ContractMap Bytes
forwarders = record { addresses = (2, 7 ∷ []) ∷ []; contracts = (2, 7 ∷ []) ∷ [] }

makes_forwarders : new_forwarder make chains clients no_contracts ≡ some forwarders
unfolding program
makes_forwarders = refl

new_forwarder_lem_example :
    (get_contract_address 2 forwarders ≡ configured (2 % 2 ^ 64) chains none)
    × (can_use_gsn 2 forwarders ≡ is_some (configured (2 % 2 ^ 64) chains none))
    × (is_some (get_contract 2 forwarders) ≡ can_use_gsn 2 forwarders)
new_forwarder_lem_example = new_forwarder_lem make chains clients forwarders 2 makes_forwarders

-- `new_bridge` has every chain, whatever its forwarder is.
bridges :
    new_bridge make chains clients no_contracts
    ≡ some (record {
      addresses = (2, 8 ∷ []) ∷ (1, 8 ∷ []) ∷ [];
      contracts = (2, 8 ∷ []) ∷ (1, 8 ∷ []) ∷ [];
    })
unfolding program
bridges = refl

-- A key of one byte is that byte.
abbrev unmarshal : Bytes → Option ℕ
unmarshal bytes = elim bytes [ key ∷ [] ↦ some key | _ ↦ none ]

bad_key : node_registry_public_keys unmarshal (some ((3 ∷ []) ∷ [] ∷ [])) ≡ panic explicit_panic
unfolding program
bad_key = refl

nobody : node_registry_node_exists (some (zeros 20)) ≡ false
unfolding program
nobody = refl

abbrev pub wrappers : Wrappers ℕ Bytes Bytes Bytes
wrappers = record {
  new_node_registry = make;
  new_node_registry_filterer = make;
  new_forwarder = make;
}

abbrev pub node : Node ℕ Bytes Bytes Bytes
node = record {
  clients = clients;
  registry = record {
    client = none;
    address = 9 ∷ [];
    node_registry = 9 ∷ [];
    node_registry_filter = 9 ∷ [];
  };
  forwarder = forwarders;
}

pub makes_node : new_node_with_clients wrappers 1 chains ≡ some node
unfolding program
makes_node = refl

abbrev registering : Registering ℕ ℕ ℕ
registering = record {
  signer_key = true;
  public_key = true;
  host = true;
  dht = true;
  gsn_client = true;
  gsn_discovered = true;
  node_exists = some false;
  token = true;
  over_gsn = some 11;
  call_opt = λ s. some 12;
  create_relayer = λ opts. some 13;
  waited = true;
  filtered = true;
}

crashes : register_node 1 true registering (some node) ≡ panic nil_dereference
unfolding program
crashes = refl

over_gsn :
    register_node 2 true registering (some node) ≡ ok (record { succeeded = true; sent = some 11 })
unfolding program
over_gsn = refl

register_node_lem_example :
    ((r : Registered ℕ) (hash : ℕ)
      → register_node 1 false registering (some node) ≡ ok r
      → r.sent ≡ some hash
      → (registering.over_gsn ≡ some hash) × (can_use_gsn 1 node.forwarder ≡ true) × (false ≡ true))
    × ((c : Service ℕ)
        → get_eth_client 1 node.clients ≡ some c
        → can_use_gsn 1 node.forwarder ≡ false
        → (registering.signer_key && registering.public_key && registering.host
            && registering.token)
          ≡ true
        → (false ≡ true
            → (registering.dht && registering.gsn_client && registering.gsn_discovered) ≡ true)
        → registering.node_exists ≢ some true
        → register_node 1 false registering (some node) ≡ panic nil_dereference)
register_node_lem_example = register_node_lem wrappers 1 chains false registering node makes_node
