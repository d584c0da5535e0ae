-- ===== src/Node/Contracts/Made.antt =====
-- Which forwarders node/contracts/forwarder.go makes, and what the keys of a registry give.
use relayer.Base.{
  is_some, ℕ, ◌%◌, ◌^◌, List, [], ◌∷◌, Bytes, Option, none, some, ◌==◌, ℕ_discrete, if◌then◌else◌,
  if_cases, or_none, ◌≡◌, refl, sym, arith,
}
use relayer.Base.Dict
use relayer.Eth.Watchers.{Service}
use relayer.Eth.Clients.{get_eth_client}
use relayer.Node.Contracts.{
  BridgeChain, ContractMap, no_contracts, skips_forwarder, new_forwarder, get_contract,
  get_contract_address, can_use_gsn,
}

-- the address that the last of the chains with an identifier has configured for the gas station
unfoldable pub configured : ℕ → List BridgeChain → Option Bytes → Option Bytes
configured id [] before = before
configured id (chain ∷ chains) before = configured id chains (
    if skips_forwarder chain
    then before
    else if chain.identifier == id
    then some chain.forwarder_address
    else before)

module _ {Conn Contract : Type 0} (make : Bytes → Service Conn → Option Contract) where
  -- both tables have the configured chains, over those of before
  AllMade : ℕ → List BridgeChain → ContractMap Contract → ContractMap Contract → Type 0
  AllMade id chains before f =
      (Dict.get ℕ_discrete id f.addresses
        ≡ configured id chains (Dict.get ℕ_discrete id before.addresses))
      × (is_some (Dict.get ℕ_discrete id f.contracts)
          ≡ is_some (Dict.get ℕ_discrete id f.addresses))

  abbrev added : BridgeChain → Contract → ContractMap Contract → ContractMap Contract
  added chain contract before = record {
    addresses = Dict.put ℕ_discrete chain.identifier chain.forwarder_address before.addresses;
    contracts = Dict.put ℕ_discrete chain.identifier contract before.contracts;
  }

  IsPaired : ℕ → ContractMap Contract → Type 0
  IsPaired id m =
      is_some (Dict.get ℕ_discrete id m.contracts) ≡ is_some (Dict.get ℕ_discrete id m.addresses)

  added-IsPaired :
      (id : ℕ) (chain : BridgeChain) (contract : Contract) (m : ContractMap Contract)
      → IsPaired id m
      → IsPaired id (added chain contract m)
  unfolding IsPaired
  added-IsPaired id chain contract m h = ground (
    arith,
    Dict.get-put ℕ_discrete id chain.identifier chain.forwarder_address m.addresses,
    Dict.get-put ℕ_discrete id chain.identifier contract m.contracts,
  )

  get-added :
      (id : ℕ) (chain : BridgeChain) (contract : Contract) (m : ContractMap Contract)
      → Dict.get ℕ_discrete id (added chain contract m).addresses ≡ (
          if chain.identifier == id
          then some chain.forwarder_address
          else Dict.get ℕ_discrete id m.addresses)
  unfolding ℕ_discrete
  get-added id chain contract m =
      ground
        (arith, Dict.get-put ℕ_discrete id chain.identifier chain.forwarder_address m.addresses)

  new_forwarder-by :
      (id : ℕ) (chains : List BridgeChain) (clients : List (ℕ × Service Conn))
      (before f : ContractMap Contract)
      → new_forwarder make chains clients before ≡ some f
      → IsPaired id before
      → AllMade id chains before f
  unfolding new_forwarder configured AllMade IsPaired
  new_forwarder-by id [] clients before f e same = ground arith
  new_forwarder-by id (chain ∷ chains) clients before f e same =
      let (client, there, rest) = or_none (get_eth_client chain.identifier clients) _ f e in
      if_cases
        (λ (o : Option (ContractMap Contract)). o ≡ some f → AllMade id (chain ∷ chains) before f)
        (skips_forwarder chain) _ _
        (λ skipped q. rw (configured, skipped) (new_forwarder-by id chains clients before f q same))
        (λ used q.
          let (contract, made, more) = or_none (make chain.forwarder_address client) _ f q in
          rw (configured, used, sym (get-added id chain contract before))
            (new_forwarder-by id chains clients (added chain contract before) f more
              (added-IsPaired id chain contract before same)))
        rest

  -- After `NewForwarder`, whatever the configuration, `GetForwarderAddress` gives for a chain, by its
  -- low 64 bits, the address that the last of its entries has that is not the zero address and is to
  -- use the gas station; and `CanUseGsn` and `GetForwarder` have a chain exactly if that address is
  -- there, so a node that may use the gas station has a contract and an address to call.
  pub new_forwarder_lem :
      (chains : List BridgeChain) (clients : List (ℕ × Service Conn)) (f : ContractMap Contract)
      (id : ℕ)
      → new_forwarder make chains clients no_contracts ≡ some f
      → (get_contract_address id f ≡ configured (id % 2 ^ 64) chains none)
        × (can_use_gsn id f ≡ is_some (configured (id % 2 ^ 64) chains none))
        × (is_some (get_contract id f) ≡ can_use_gsn id f)
  unfolding get_contract_address can_use_gsn get_contract AllMade IsPaired Dict.get
  new_forwarder_lem chains clients f id e =
      let made = new_forwarder-by (id % 2 ^ 64) chains clients no_contracts f e refl in
      (made.0, ground (arith, made), ground arith)
