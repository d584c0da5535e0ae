-- ===== src/Tests/Run.antt =====
-- `RunNode` of the node of Tests/Start, whose epoch does not start, and with one that does.
use relayer.Base.{
  ℕ, ℕ_discrete, bytes_discrete, [], ◌∷◌, some, Bool, true, false, Outcome, ok, ◌≡◌, ◌⊎◌, refl,
}
use relayer.Base.Dict
use relayer.Eth.Client.{
  Network, get_client, check_connection, dial_urls, skips, after_dial, send_resubscribe_signal,
}
use relayer.Eth.Methods.{with_client, chain_id, know_chain, use_client}
use relayer.Eth.Watchers.{
  Contracts, watch_logs, subscribed_by, subscribe, sub_loop, add_watcher, on_timer, reconnected,
  on_log, close, close_watchers, close_watcher, new_client_watcher, set_subscribed,
}
use relayer.Eth.Clients.{get_eth_client, close_each}
use relayer.Eth.Watchers.Hangs.{timer, log}
use relayer.Node.Contracts.{new_bridge, no_contracts, get_contract_address}
use relayer.Node.Run.{
  exits, hangs, Running, added, same_chain, after, watch_requests, watch_all, after_epoch,
  watch_epochs, run_registered, run_with, deferred, run_node, run_body,
}
use relayer.Node.Run.Stays.{reaches, run_node_stays}
use relayer.Tests.Start.{chains, make, wrappers, node, makes_node}

program : Unit {0}
unfolding know_chain use_client set_subscribed get_client check_connection dial_urls skips
    after_dial send_resubscribe_signal with_client chain_id watch_logs subscribed_by subscribe
    sub_loop add_watcher on_timer reconnected on_log close close_watchers close_watcher
    new_client_watcher get_eth_client close_each new_bridge get_contract_address added same_chain
    after watch_requests watch_all after_epoch watch_epochs run_registered run_with deferred
    run_body run_node reaches Dict.get Dict.put Dict.delete ℕ_discrete bytes_discrete
program = tt

abbrev contracts : Contracts ℕ
contracts = record { topics_made = λ key. true; subscribes = λ conn key. true }

abbrev net : Network ℕ
net = record {
  dial = λ url. some 1;
  chain_id = λ conn. some 1;
  drains = true;
  read_again = λ conn. some conn;
}

abbrev running : Outcome Bool → Running contracts
running epoch_started = record {
  signer_key = true;
  host = true;
  bls_id = true;
  dht = true;
  gsn_client = true;
  node_exists = some true;
  pub_sub = true;
  priv_key = true;
  epoch_watcher = λ address. true;
  epoch_key = λ address. 1 ∷ address;
  request_watcher = λ address. true;
  request_key = λ address. 2 ∷ address;
  epoch_nets = λ i. net;
  epoch_started = epoch_started;
  ledger = true;
  request_nets = λ chain i. net;
  chain_nets = λ chain i. net;
  during_epoch = λ id. log ∷ [];
  before_close = λ id. timer (λ i. net) ∷ [];
}

run_node_stays_example :
    (reaches contracts 1 (running (ok false)) (new_bridge make chains node.clients no_contracts)
        ≡ true
      → (run_node contracts make 1 chains (running (ok false)) (some node) ≡ hangs)
        ⊎ ((run_node contracts make 1 chains (running (ok false)) (some node) ≡ exits)
            × (ok false ≡ ok true)
            × (true ≡ true)))
    × (reaches contracts 1 (running (ok false)) (new_bridge make chains node.clients no_contracts)
          ≡ false
        → (run_body contracts make 1 chains (running (ok false)) (some node)).1 ≡ node.clients)
run_node_stays_example =
    run_node_stays contracts make wrappers 1 chains (running (ok false)) node makes_node refl

it_reaches :
    reaches contracts 1 (running (ok false)) (new_bridge make chains node.clients no_contracts)
    ≡ true
unfolding program
it_reaches = refl

failed_epoch : run_node contracts make 1 chains (running (ok false)) (some node) ≡ hangs
unfolding program
failed_epoch = refl

started_epoch : run_node contracts make 1 chains (running (ok true)) (some node) ≡ exits
unfolding program
started_epoch = refl
