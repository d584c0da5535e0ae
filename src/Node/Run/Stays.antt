-- ===== src/Node/Run/Stays.antt =====
-- Where `RunNode` stays for ever: the closing of the clients waits for a watcher's loop.
use relayer.Base.{
  ℕ, ◌%◌, ◌^◌, List, [], ◌∷◌, Bytes, bytes_discrete, Option, none, some, Bool, true, false, ◌&&◌,
  ℕ_discrete, ok, ◌≡◌, refl, sym, ap, ◌∙◌, subst, arith, ◌⊎◌, inl, inr, Option-cases, or_none, map,
}
use relayer.Base.Dict
use relayer.Eth.Client.{Config, new_client}
use relayer.Eth.Watchers.{Contracts, Service, Watcher, close}
use relayer.Eth.Watchers
use relayer.Eth.Watchers.Hangs.{IsService, add_watcher-fresh}
use relayer.Eth.Clients.Made.{same_some, new_client-IsNew, new_clients_again, new_clients_next}
use relayer.Eth.Clients.{get_eth_client, new_clients, service_of}
use relayer.Node.Contracts.{
  BridgeChain, ContractMap, no_contracts, new_bridge, get_contract_address, new_registry,
  new_forwarder,
}
use relayer.Node.Start.{
  Wrappers, Node, new_node_with_clients, with_registry, client_config, chains_by_id,
}
use relayer.Node.Run.{
  RunEnd, exits, hangs, Running, watch_epochs, run_registered, run_with, deferred, run_body,
  run_node,
}
use relayer.Node.Run.Clients.{Each, get-Each, put-Each}
use relayer.Node.Run.Watched.{
  added_elim, Runs, after-Runs, deferred-hangs, after_epoch-Runs, after_epoch-exits,
}

module _ {Conn : Type 0} (contracts : Contracts Conn) where
  -- Fit, and without a watcher.
  abbrev Fresh : Service Conn → Type 0
  Fresh s = IsService contracts s × (s.watchers ≡ [])

  Each-Fresh :
      (m : List (ℕ × Service Conn))
      → Each contracts Fresh m
      → Each contracts (IsService contracts) m
  Each-Fresh [] e = e
  Each-Fresh ((i, t) ∷ m) (h, e) = (h.0, Each-Fresh m e)

  abbrev Waits : ℕ → Running contracts → RunEnd × List (ℕ × Service Conn) → Type 0
  Waits id a r =
      Runs contracts id r.1 × (r.0 ≡ exits → (a.epoch_started ≡ ok true) × (a.ledger ≡ true))

  abbrev Ends : Running contracts → RunEnd × List (ℕ × Service Conn) → Type 0
  Ends a r =
      (deferred contracts r.0 a r.1 ≡ hangs)
      ⊎ ((deferred contracts r.0 a r.1 ≡ exits) × (a.epoch_started ≡ ok true) × (a.ledger ≡ true))

  Waits-Ends :
      (id : ℕ) (a : Running contracts) (r : RunEnd × List (ℕ × Service Conn))
      → Waits id a r
      → Ends a r
  unfolding deferred
  Waits-Ends id a r (runs, ended) = elim (deferred-hangs contracts id a r.0 r.1 runs) [
    | inl stays ↦ inl stays
    | inr exited ↦
        inr (ap (λ e. deferred contracts e a r.1) exited, (ended exited).0, (ended exited).1)
  ]

  watch_epochs-Waits :
      (reg_chain_id : ℕ) (chains : List BridgeChain) (a : Running contracts) (address : Bytes)
      (m : List (ℕ × Service Conn)) (s : Service Conn)
      → Each contracts Fresh m
      → get_eth_client reg_chain_id m ≡ some s
      → a.epoch_watcher address ≡ true
      → Waits (reg_chain_id % 2 ^ 64) a (watch_epochs contracts reg_chain_id chains a address m)
  unfolding watch_epochs get_eth_client Dict.get
  watch_epochs-Waits reg_chain_id chains a address m s f there made =
      let fit = get-Each contracts Fresh (reg_chain_id % 2 ^ 64) m s f there in
      let watched = Watchers.add_watcher contracts (a.epoch_key address) a.epoch_nets s in
      let k =
        add_watcher-fresh contracts (a.epoch_key address) a.epoch_nets s
          (ap (Dict.get bytes_discrete (a.epoch_key address)) fit.1) fit.0 in
      let clients = Dict.put ℕ_discrete (reg_chain_id % 2 ^ 64) watched.1 m in
      let r : Runs contracts (reg_chain_id % 2 ^ 64) clients = record {
        each =
            put-Each contracts (IsService contracts) (reg_chain_id % 2 ^ 64) watched.1 m k.service
              (Each-Fresh m f);
        service = watched.1;
        there = ground (
          arith,
          Dict.get-put ℕ_discrete (reg_chain_id % 2 ^ 64) (reg_chain_id % 2 ^ 64) watched.1 m,
        );
        on = k.same;
      } in
      rw (made, there, watch_epochs)
        (added_elim (Waits (reg_chain_id % 2 ^ 64) a) watched.0 _ _ (r, λ e. absurd (cc))
          (r, λ e. absurd (cc))
          (
            after_epoch-Runs contracts _ chains a _ a.epoch_started
                (after-Runs contracts _ a.during_epoch clients r),
            after_epoch-exits contracts chains a _ a.epoch_started,
          ))

  new_clients-Fresh :
      (cfgs : List Config) (clients made : List (ℕ × Service Conn))
      → Each contracts Fresh clients
      → new_clients cfgs clients ≡ some made
      → Each contracts Fresh made
  unfolding new_clients
  new_clients-Fresh [] clients made f e = subst (Each contracts Fresh) (same_some contracts e) f
  new_clients-Fresh (cfg ∷ cfgs) clients made f e =
      elim (Option-cases (Dict.get ℕ_discrete cfg.identifier clients)) [
        | inr (s, there) ↦
            new_clients-Fresh cfgs clients made f
              (sym (new_clients_again contracts cfg cfgs clients s there) ∙ e)
        | inl missing ↦
            let (c, made_one, rest) =
              or_none (new_client cfg) _ made
                (sym (new_clients_next contracts cfg cfgs clients missing) ∙ e) in
            new_clients-Fresh cfgs (Dict.put ℕ_discrete cfg.identifier (service_of c) clients) made
              (put-Each contracts Fresh cfg.identifier (service_of c) clients
                ((new_client-IsNew contracts cfg c made_one).service, refl) f)
              rest
      ]

-- What comes before the watcher of epochs succeeds, in a registry that has the node.
unfoldable pub reaches :
    {Conn Bridge : Type 0} (contracts : Contracts Conn)
    → ℕ
    → Running contracts
    → Option (ContractMap Bridge)
    → Bool
reaches contracts reg_chain_id a bridges =
    a.host
    && a.bls_id
    && a.dht
    && a.gsn_client
    && (elim a.node_exists [ none ↦ false | some exists ↦ exists ])
    && a.pub_sub
    && a.priv_key
    && (elim bridges [
      | none ↦ false
      | some bridge ↦ elim (get_contract_address reg_chain_id bridge) [
        | none ↦ false
        | some address ↦ a.epoch_watcher address
      ]
    ])

module _ {Conn Contract Filterer Forwarder Bridge : Type 0} (contracts : Contracts Conn)
    (make : Bytes → Service Conn → Option Bridge)
    (w : Wrappers Conn Contract Filterer Forwarder) where
  new_node-clients :
      (reg_chain_id : ℕ) (chains : List BridgeChain) (n : Node Conn Contract Filterer Forwarder)
      → new_node_with_clients w reg_chain_id chains ≡ some n
      → Each contracts (Fresh contracts) n.clients
        × ((s : Service Conn) × (get_eth_client reg_chain_id n.clients ≡ some s))
  unfolding new_node_with_clients with_registry
  new_node-clients reg_chain_id chains n e =
      let (clients, made, e₁) = or_none (new_clients (map client_config chains) []) _ n e in
      let (reg_chain, found, e₂) =
        or_none (Dict.get ℕ_discrete reg_chain_id (chains_by_id chains [])) _ n e₁ in
      let (reg_client, there, e₃) = or_none (get_eth_client reg_chain_id clients) _ n e₂ in
      let (registry, got, e₄) = or_none (new_registry reg_chain.node_registry_address _ _) _ n e₃ in
      let (forwarder, f, e₅) =
        or_none (new_forwarder w.new_forwarder chains clients no_contracts) _ n e₄ in
      let same : clients ≡ n.clients = cc e₅ in
      (
        subst (Each contracts (Fresh contracts)) same
            (new_clients-Fresh contracts (map client_config chains) [] clients tt made),
        (reg_client, ap (get_eth_client reg_chain_id) (sym same) ∙ there),
      )

  reached-watch_epochs :
      (reg_chain_id : ℕ) (chains : List BridgeChain) (a : Running contracts)
      (bridge : ContractMap Bridge) (m : List (ℕ × Service Conn))
      → reaches contracts reg_chain_id a (some bridge) ≡ true
      → (address : Bytes) × (a.epoch_watcher address ≡ true)
        × (run_with contracts reg_chain_id chains a bridge m
            ≡ watch_epochs contracts reg_chain_id chains a address m)
  unfolding reaches run_with run_registered
  reached-watch_epochs reg_chain_id chains a bridge m e =
      elim (Option-cases (get_contract_address reg_chain_id bridge)) [
        | inl unknown ↦ absurd (ground (arith, e, unknown))
        | inr (address, known) ↦ (address, ground (arith, e, known), ground (arith, e, known))
      ]

  unreached-run_with :
      (reg_chain_id : ℕ) (chains : List BridgeChain) (a : Running contracts)
      (bridge : ContractMap Bridge) (m : List (ℕ × Service Conn))
      → reaches contracts reg_chain_id a (some bridge) ≡ false
      → (run_with contracts reg_chain_id chains a bridge m).1 ≡ m
  unfolding reaches run_with run_registered watch_epochs
  unreached-run_with reg_chain_id chains a bridge m e = ground (arith, e)

  run_body-made :
      (reg_chain_id : ℕ) (chains : List BridgeChain) (a : Running contracts)
      (n : Node Conn Contract Filterer Forwarder) (bridge : ContractMap Bridge)
      → a.signer_key ≡ true
      → new_bridge make chains n.clients no_contracts ≡ some bridge
      → run_body contracts make reg_chain_id chains a (some n)
        ≡ run_with contracts reg_chain_id chains a bridge n.clients
  unfolding run_body
  run_body-made reg_chain_id chains a n bridge key made = ground (arith, key, made)

  run_body-unmade :
      (reg_chain_id : ℕ) (chains : List BridgeChain) (a : Running contracts)
      (n : Node Conn Contract Filterer Forwarder)
      → a.signer_key ≡ true
      → new_bridge make chains n.clients no_contracts ≡ none
      → (run_body contracts make reg_chain_id chains a (some n)).1 ≡ n.clients
  unfolding run_body
  run_body-unmade reg_chain_id chains a n key none_made = ground (arith, key, none_made)

  -- `RunNode` with the node that `NewNodeWithClients` made, where the key of the signer was read:
  -- once it comes to the watcher of epochs, it never returns, not with the error of a later step, not after
  -- a panic, since the deferred closing of the clients waits for the watcher's loop; it ends only as the process
  -- exits, which takes an epoch and a ledger. Before that, no watcher was added.
  pub run_node_stays :
      (reg_chain_id : ℕ) (chains : List BridgeChain) (a : Running contracts)
      (n : Node Conn Contract Filterer Forwarder)
      → new_node_with_clients w reg_chain_id chains ≡ some n
      → a.signer_key ≡ true
      → let r = run_node contracts make reg_chain_id chains a (some n) in
        let reached =
          reaches contracts reg_chain_id a (new_bridge make chains n.clients no_contracts) in
        (reached ≡ true
          → (r ≡ hangs) ⊎ ((r ≡ exits) × (a.epoch_started ≡ ok true) × (a.ledger ≡ true)))
        × (reached ≡ false → (run_body contracts make reg_chain_id chains a (some n)).1 ≡ n.clients)
  unfolding run_node reaches
  run_node_stays reg_chain_id chains a n e key =
      let (fresh, (s, there)) = new_node-clients reg_chain_id chains n e in
      elim (Option-cases (new_bridge make chains n.clients no_contracts)) [
        | inl none_made ↦ (
          λ q. absurd (ground (arith, none_made, q)),
          λ q. run_body-unmade reg_chain_id chains a n key none_made,
        )
        | inr (bridge, made) ↦ (
          λ q.
              let (address, watched, same) =
                reached-watch_epochs reg_chain_id chains a bridge n.clients
                  (ap (reaches contracts reg_chain_id a) (sym made) ∙ q) in
              let (runs, ended) =
                watch_epochs-Waits contracts reg_chain_id chains a address n.clients s fresh there
                  watched in
              subst (Ends contracts a)
                (sym (run_body-made reg_chain_id chains a n bridge key made ∙ same))
                (Waits-Ends contracts (reg_chain_id % 2 ^ 64) a _ (runs, ended)),
          λ q.
              ap (λ r. r.1) (run_body-made reg_chain_id chains a n bridge key made)
              ∙ unreached-run_with reg_chain_id chains a bridge n.clients
                  (ap (reaches contracts reg_chain_id a) (sym made) ∙ q),
        )
      ]
