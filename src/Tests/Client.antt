-- ===== src/Tests/Client.antt =====
-- extChains/clients.go and the client of extChains/eth at small inputs. A connection is a number.
use relayer.Base.{
  ◌-◌, ◌≤◌, ℕ, suc, ◌*◌, ◌<◌, ◌^◌, [], ◌∷◌, Bytes, bytes_discrete, ℕ_discrete, none, some, true,
  false, In, zero, ◌≡◌, refl,
}
use relayer.Base.Dict
use relayer.Base.Int.{pos, negsuc}
use relayer.Eth.Client.{
  Network, Config, Client, got, new_client, skips, dial_urls, send_resubscribe_signal, after_dial,
  check_connection, get_client,
}
use relayer.Eth.Client.Connect.{IsClient}
use relayer.Eth.Methods.{
  know_chain, crashed, reply, hung, Backend, TransactOpts, to_int64, no_error, not_found,
  use_client, with_client, chain_id, balance_at, mined, wait_step, Round, wait_transaction,
  call_opt, transaction_receipt, pending_nonce_at, suggest_gas_price, transact_opts,
}
use relayer.Eth.Methods.Calls.{Reached, Answers, with_client-Answers}
use relayer.Eth.Methods.Waiting.{call_opt_lem}
use relayer.Eth.Watchers
use relayer.Eth.Watchers.{Contracts, Service, on_timer, close, close_watchers}
use relayer.Eth.Watchers.Hangs.{IsService, Call, log, run, close_lem, adds}
use relayer.Eth.Clients.{service_of, new_clients, get_eth_client}

-- Only the second url answers; its connection is to chain 5, the third's to chain 6.
abbrev net : ℕ → Network ℕ
net i = record {
  dial = λ url. elim url [ [] ↦ none | n ∷ rest ↦ elim n [ zero ↦ none | suc m ↦ some (suc m) ] ];
  chain_id = λ conn. elim conn [ zero ↦ none | suc m ↦ elim m [ zero ↦ some 5 | suc k ↦ some 6 ] ];
  drains = true;
  read_again = λ conn. some conn;
}

abbrev cfg : Config
cfg = record {
  call_timeout = 0;
  dial_timeout = 7;
  block_timeout = 0;
  identifier = 5;
  urls = (0 ∷ []) ∷ (2 ∷ []) ∷ (1 ∷ []) ∷ [];
}

abbrev fresh : Client ℕ
fresh = record {
  eth_client = none;
  chain_id = 5;
  call_timeout = 30;
  dial_timeout = 7;
  block_timeout = 120;
  connected = false;
  recreated = false;
  sub_loop_initialized = false;
  signals = 0;
  current_url = [];
  urls = (0 ∷ []) ∷ (2 ∷ []) ∷ (1 ∷ []) ∷ [];
}

client_code : Unit {0}
unfolding new_client skips dial_urls send_resubscribe_signal after_dial check_connection get_client
    bytes_discrete ℕ_discrete use_client with_client chain_id balance_at wait_step wait_transaction
    call_opt transaction_receipt pending_nonce_at suggest_gas_price transact_opts to_int64 Dict.get
    Dict.put Dict.delete new_clients get_eth_client
client_code = tt

made : new_client cfg ≡ some fresh
unfolding client_code
made = refl

-- The third url is the first that is to the chain.
connects :
    get_client 2 net fresh
    ≡ some (got (some 1), record fresh { eth_client = some 1; connected = true; recreated = true })
unfolding client_code
connects = refl

abbrev connected : Client ℕ
connected = record fresh { eth_client = some 1; connected = true; recreated = true }

-- Another goroutine loses the connection between the check and the return.
abbrev racing : ℕ → Network ℕ
racing i = record (net i) { read_again = λ conn. none }

races : (with_client (λ (conn : ℕ). some conn) racing connected).0 ≡ crashed
unfolding client_code
races = refl

fresh-IsClient : IsClient fresh
fresh-IsClient = record { no_current = refl; some_url = (_, _, refl) }

with_client-Answers_example :
    Answers
      (λ (conn : ℕ). some (conn * 100))
      net
      fresh
      (with_client (λ (conn : ℕ). some (conn * 100)) net fresh)
with_client-Answers_example =
    with_client-Answers (λ (conn : ℕ). some (conn * 100)) net fresh fresh-IsClient

-- a receipt is its status
abbrev backend : Backend ℕ
backend = record {
  Receipt = ℕ;
  Header = ℕ;
  Transaction = ℕ;
  Message = ℕ;
  Query = ℕ;
  Log = ℕ;
  Subscription = ℕ;
  Signer = ℕ;
  PrivateKey = ℕ;
  balance_at = λ conn account number. some 3;
  code_at = λ conn account number. some [];
  call_contract = λ conn msg number. none;
  header_by_number = λ conn number. number;
  pending_code_at = λ conn account. none;
  pending_nonce_at = λ conn account. some 9;
  suggest_gas_price = λ conn. some 40;
  suggest_gas_tip_cap = λ conn. none;
  estimate_gas = λ conn msg. some msg;
  send_transaction = λ conn tx. some tt;
  filter_logs = λ conn query. none;
  subscribe_filter_logs = λ conn query. some query;
  transaction_by_hash = λ conn hash. none;
  status = λ receipt. receipt;
  tx_hash = λ receipt. [];
  address_of = λ key. some (key ∷ []);
  keyed_transactor = λ key chain. some (key * chain);
}

abbrev not_yet : Round backend
not_yet = record { nets = net; answer = λ conn hash. (none, not_found) }

abbrev mined_now : Round backend
mined_now = record { nets = net; answer = λ conn hash. (some 1, no_error) }

waits : (wait_transaction backend (8 ∷ []) (not_yet ∷ mined_now ∷ []) fresh).0 ≡ mined 1
unfolding client_code
waits = refl

abbrev options : TransactOpts ℕ
options = record { signer = 15; nonce = pos 9; value = 0; gas_price = 80 }

opted : (call_opt backend 3 (λ i. net) fresh).0 ≡ reply options
unfolding client_code know_chain
opted = refl

call_opt_lem_example :
    (address : Bytes) × (nonce : ℕ) × (price : ℕ) × (conn : ℕ) × (conn' : ℕ) × (some (3 ∷ [])
      ≡ some address)
    × Reached net 5 conn
    × (some 9 ≡ some nonce)
    × Reached net 5 conn'
    × (some 40 ≡ some price)
    × (backend.keyed_transactor 3 5 ≡ some options.signer)
    × (options.gas_price ≡ price * 2)
    × (options.value ≡ 0)
    × (nonce < 2 ^ 63 → options.nonce ≡ pos nonce)
    × (2 ^ 63 ≤ nonce → options.nonce ≡ negsuc (2 ^ 64 - 1 - nonce))
call_opt_lem_example = call_opt_lem backend 3 (λ i. net) fresh options fresh-IsClient opted

abbrev contracts : Contracts ℕ
contracts = record { topics_made = λ key. true; subscribes = λ conn key. true }

fresh-IsService : IsService contracts (service_of fresh)
fresh-IsService = record { fit = fresh-IsClient; counted = refl }

close_lem_example :
    ((key : Bytes) (nets : ℕ → Network ℕ)
      → Dict.get bytes_discrete key (service_of fresh).watchers ≡ none
      → (close contracts (
          run contracts
            (log ∷ [])
            (Watchers.add_watcher contracts key nets (service_of fresh)).1)).0
        ≡ hung)
    × (false ≡ false
        → ((call : Call contracts) → In call (log ∷ []) → adds contracts call ≡ false)
        → (close contracts (run contracts (log ∷ []) (service_of fresh))).0
          ≡ reply (close_watchers contracts (run contracts (log ∷ []) (service_of fresh)).watchers))
close_lem_example = close_lem contracts (log ∷ []) (service_of fresh) fresh-IsService

abbrev waiting : Service ℕ
waiting = record {
  client = record fresh { sub_loop_initialized = true; signals = 1 };
  watchers = [];
  reconnect_on_timer = true;
  cancelled = false;
  events = 0;
  loops = 1;
}

waiting-IsService : IsService contracts waiting
waiting-IsService = record {
  fit = record { no_current = refl; some_url = (_, _, refl) };
  counted = refl;
}

new_clients_made : new_clients (cfg ∷ cfg ∷ []) [] ≡ some ((5, service_of fresh) ∷ [])
unfolding client_code
new_clients_made = refl

got_fresh : get_eth_client 5 ((5, service_of fresh) ∷ []) ≡ some (service_of fresh)
unfolding client_code
got_fresh = refl
