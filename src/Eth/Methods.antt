-- ===== src/Eth/Methods.antt =====
-- extChains/eth/client_methods.go: the calls that a client passes on to go-ethereum, each after it
-- has seen to its connection, and the two loops that wait for a transaction.
pub mod Calls
pub mod Waiting
use relayer.Base.{
  ℕ, zero, suc, ◌*◌, ◌%◌, ◌-◌, ◌^◌, List, [], ◌∷◌, Bytes, Option, none, some, Bool, true, false,
  ◌==◌, ltb, if◌then◌else◌,
}
use relayer.Base.Int.{ℤ, pos, negsuc}
use relayer.Eth.Client.{Network, Client, Got, got, refused, hangs, get_client}

-- How a method ends: with a value, with an error, not at all, or with a nil dereference.
pub data Reply (A : Type 0) : Type 0 where
  reply : A → Reply A
  failed hung crashed : Reply A

-- the error of a call: nil, `ethereum.NotFound`, or another
pub data CallError : Type 0 where
  no_error not_found other_error : CallError

-- The calls of go-ethereum on a connection, with its types. Where nothing is said of the error,
-- none stands for one.
pub record Backend (Conn : Type 0) : Type 1 where
  pub Receipt : Type 0
  pub Header : Type 0
  pub Transaction : Type 0
  pub Message : Type 0
  pub Query : Type 0
  pub Log : Type 0
  pub Subscription : Type 0
  pub Signer : Type 0
  pub PrivateKey : Type 0
  pub balance_at : Conn → Bytes → Option ℕ → Option ℕ
  pub code_at : Conn → Bytes → Option ℕ → Option Bytes
  pub call_contract : Conn → Message → Option ℕ → Option Bytes
  pub header_by_number : Conn → Option ℕ → Option Header
  pub pending_code_at : Conn → Bytes → Option Bytes
  pub pending_nonce_at : Conn → Bytes → Option ℕ
  pub suggest_gas_price : Conn → Option ℕ
  pub suggest_gas_tip_cap : Conn → Option ℕ
  pub estimate_gas : Conn → Message → Option ℕ
  pub send_transaction : Conn → Transaction → Option (Unit {0})
  pub filter_logs : Conn → Query → Option (List Log)
  pub subscribe_filter_logs : Conn → Query → Option Subscription
  pub transaction_by_hash : Conn → Bytes → Option (Transaction × Bool)
  pub status : Receipt → ℕ
  pub tx_hash : Receipt → Bytes
  pub address_of : PrivateKey → Option Bytes
  pub keyed_transactor : PrivateKey → ℕ → Option Signer

-- what the code sets of bind.TransactOpts
pub record TransactOpts (Signer : Type 0) : Type 0 where
  pub signer : Signer
  pub nonce : ℤ
  pub value : ℕ
  pub gas_price : ℕ

-- `int64(n)` of a number of 64 bits
unfoldable pub to_int64 : ℕ → ℤ
to_int64 n = if ltb n (2 ^ 63) then pos n else negsuc (2 ^ 64 - 1 - n)

abbrev pub of_option : {A : Type 0} → Option A → Reply A
of_option none = failed
of_option (some a) = reply a

module _ {Conn : Type 0} where
  -- what a method does with the client that it got
  unfoldable pub use_client : {A : Type 0} → (Conn → Option A) → Got Conn → Reply A
  use_client call (got (some conn)) = of_option (call conn)
  use_client call (got none) = crashed
  use_client call refused = failed
  use_client call hangs = hung

  -- The shape of the methods. `getClient` has two rounds, which are enough.
  unfoldable pub with_client :
      {A : Type 0} → (Conn → Option A) → (ℕ → Network Conn) → Client Conn → Reply A × Client Conn
  with_client call nets c = elim (get_client 2 nets c) [
    | none ↦ (hung, c)
    | some r ↦ (use_client call r.0, r.1)
  ]

  -- `ChainID`, which uses no connection
  unfoldable pub know_chain : ℕ → Got Conn → Reply ℕ
  know_chain id (got conn) = reply id
  know_chain id refused = failed
  know_chain id hangs = hung

  unfoldable pub chain_id : (ℕ → Network Conn) → Client Conn → Reply ℕ × Client Conn
  chain_id nets c = elim (get_client 2 nets c) [
    | none ↦ (hung, c)
    | some r ↦ (know_chain c.chain_id r.0, r.1)
  ]

  -- a call after another one of the same method
  abbrev pub and_then :
      {A B : Type 0}
      → Reply A × Client Conn
      → (A → Client Conn → Reply B × Client Conn)
      → Reply B × Client Conn
  and_then (reply a, c) next = next a c
  and_then (failed, c) next = (failed, c)
  and_then (hung, c) next = (hung, c)
  and_then (crashed, c) next = (crashed, c)

-- How `WaitTransaction` ends.
pub data Waited (Receipt : Type 0) : Type 0 where
  mined : Receipt → Waited Receipt
  timed_out call_error tx_failed waits_forever wait_crashed : Waited Receipt

module _ {Conn : Type 0} (backend : Backend Conn) where
  abbrev pub Method : Type 0 → Type 0
  Method A = (ℕ → Network Conn) → Client Conn → Reply A × Client Conn

  unfoldable pub balance_at : Bytes → Option ℕ → Method ℕ
  balance_at account number = with_client (λ conn. backend.balance_at conn account number)

  -- the answers to `TransactionReceipt` change while the loops wait
  pub record Round : Type 0 where
    pub nets : ℕ → Network Conn
    pub answer : Conn → Bytes → Option backend.Receipt × CallError

  unfoldable pub transaction_receipt :
      Bytes → Round → Client Conn → Reply (Option backend.Receipt × CallError) × Client Conn
  transaction_receipt hash round c =
      with_client (λ conn. some (round.answer conn hash)) round.nets c

  unfoldable pub code_at : Bytes → Option ℕ → Method Bytes
  code_at contract number = with_client (λ conn. backend.code_at conn contract number)

  unfoldable pub call_contract : backend.Message → Option ℕ → Method Bytes
  call_contract msg number = with_client (λ conn. backend.call_contract conn msg number)

  unfoldable pub header_by_number : Option ℕ → Method backend.Header
  header_by_number number = with_client (λ conn. backend.header_by_number conn number)

  unfoldable pub pending_code_at : Bytes → Method Bytes
  pending_code_at account = with_client (λ conn. backend.pending_code_at conn account)

  unfoldable pub pending_nonce_at : Bytes → Method ℕ
  pending_nonce_at account = with_client (λ conn. backend.pending_nonce_at conn account)

  unfoldable pub suggest_gas_price : Method ℕ
  suggest_gas_price = with_client backend.suggest_gas_price

  unfoldable pub suggest_gas_tip_cap : Method ℕ
  suggest_gas_tip_cap = with_client backend.suggest_gas_tip_cap

  unfoldable pub estimate_gas : backend.Message → Method ℕ
  estimate_gas msg = with_client (λ conn. backend.estimate_gas conn msg)

  unfoldable pub send_transaction : backend.Transaction → Method (Unit {0})
  send_transaction tx = with_client (λ conn. backend.send_transaction conn tx)

  unfoldable pub filter_logs : backend.Query → Method (List backend.Log)
  filter_logs query = with_client (λ conn. backend.filter_logs conn query)

  unfoldable pub subscribe_filter_logs : backend.Query → Method backend.Subscription
  subscribe_filter_logs query = with_client (λ conn. backend.subscribe_filter_logs conn query)

  unfoldable pub transaction_by_hash : Bytes → Method (backend.Transaction × Bool)
  transaction_by_hash hash = with_client (λ conn. backend.transaction_by_hash conn hash)

  -- the last part of `CallOpt`: an error of the transactor is not looked at, so that its nil result
  -- is written to
  unfoldable pub transact_opts :
      backend.PrivateKey
      → ℕ
      → ℕ
      → ℕ
      → Client Conn
      → Reply (TransactOpts backend.Signer) × Client Conn
  transact_opts key nonce price chain c = elim (backend.keyed_transactor key chain) [
    | none ↦ (crashed, c)
    | some signer ↦ (
      reply (record { signer = signer; nonce = to_int64 nonce; value = 0; gas_price = price * 2 }),
      c,
    )
  ]

  -- `CallOpt`; its three calls have the networks `nets 0`, `nets 1` and `nets 2`
  unfoldable pub call_opt :
      backend.PrivateKey
      → (ℕ → ℕ → Network Conn)
      → Client Conn
      → Reply (TransactOpts backend.Signer) × Client Conn
  call_opt key nets c = elim (backend.address_of key) [
    | none ↦ (failed, c)
    | some address ↦ and_then (pending_nonce_at address (nets 0) c) (λ nonce c1.
        and_then (suggest_gas_price (nets 1) c1) (λ price c2.
          and_then (chain_id (nets 2) c2) (λ chain c3. transact_opts key nonce price chain c3)))
  ]

  -- one answer of `TransactionReceipt` in the loop of `WaitTransaction`: to go on, or the end
  unfoldable pub wait_step :
      Reply (Option backend.Receipt × CallError) → Option (Waited backend.Receipt)
  wait_step (reply (none, error)) = none
  wait_step (reply (some receipt, not_found)) = none
  wait_step (reply (some receipt, other_error)) = some call_error
  wait_step (reply (some receipt, no_error)) =
      some (if backend.status receipt == 1 then mined receipt else tx_failed)
  wait_step failed = none
  wait_step hung = some waits_forever
  wait_step crashed = some wait_crashed

  -- `WaitTransaction`, over its rounds until the deadline
  unfoldable pub wait_transaction :
      Bytes → List Round → Client Conn → Waited backend.Receipt × Client Conn
  wait_transaction hash [] c = (timed_out, c)
  wait_transaction hash (round ∷ rounds) c =
      let answer = transaction_receipt hash round c in
      let rest = wait_transaction hash rounds answer.1 in
      elim (wait_step answer.0) [ some result ↦ (result, answer.1) | none ↦ rest ]

  -- one answer of `TransactionReceipt` in the goroutine of `WaitForBlockCompletion`: none to go on;
  -- the status of a nil receipt cannot be asked for
  unfoldable pub await_step :
      Reply (Option backend.Receipt × CallError) → Option (Reply (Option backend.Receipt))
  await_step (reply (some receipt, no_error)) = some (reply (some receipt))
  await_step (reply (none, no_error)) = some crashed
  await_step (reply (receipt, not_found)) = none
  await_step (reply (receipt, other_error)) = none
  await_step failed = none
  await_step hung = some hung
  await_step crashed = some crashed

  -- the goroutine up to what it sends; none for nil, as its deadline passes with the last round
  unfoldable pub await_receipt :
      Bytes → List Round → Client Conn → Reply (Option backend.Receipt) × Client Conn
  await_receipt hash [] c = (reply none, c)
  await_receipt hash (round ∷ rounds) c =
      let answer = transaction_receipt hash round c in
      let rest = await_receipt hash rounds answer.1 in
      elim (await_step answer.0) [ some result ↦ (result, answer.1) | none ↦ rest ]

  -- what `WaitForBlockCompletion` does with what it receives: the gas price of a transaction that is
  -- not found is asked of nil
  unfoldable pub completed :
      (ℕ → Network Conn)
      → Option backend.Receipt
      → Client Conn
      → Reply (ℤ × Option backend.Receipt) × Client Conn
  completed nets none c = (reply (negsuc 0, none), c)
  completed nets (some receipt) c =
      let found = transaction_by_hash (backend.tx_hash receipt) nets c in
      (
        elim found.0 [
          | reply tx ↦ reply (pos (backend.status receipt), some receipt)
          | failed ↦ crashed
          | hung ↦ hung
          | crashed ↦ crashed
        ],
        found.1,
      )

  unfoldable pub wait_for_block_completion :
      Bytes
      → List Round
      → (ℕ → Network Conn)
      → Client Conn
      → Reply (ℤ × Option backend.Receipt) × Client Conn
  wait_for_block_completion hash rounds nets c =
      and_then (await_receipt hash rounds c) (completed nets)
