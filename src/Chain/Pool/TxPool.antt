-- ===== src/Chain/Pool/TxPool.antt =====
-- chain/tx_pool.go: the pool of the transactions of the requests that a node has seen. Accounts are
-- addresses, and a map over them is an association list, whose order stands for the order of Go's
-- ranges. A list is shared by nobody but the entry of the map that points to it. What runs under the
-- pool's mutex is one step.
pub mod Step
pub mod Log
pub mod Pending
pub mod Groups
use relayer.Base.{
  ℕ, suc, ◌+◌, ◌%◌, ◌^◌, ◌==◌, List, [], ◌∷◌, ◌++◌, Bytes, bytes_discrete, ℕ_discrete, Option, none,
  some, Bool, true, false, Outcome, ok, panic, nil_dereference, explicit_panic, ◌>>=◌,
  if◌then◌else◌, length,
}
use relayer.Base.Dict
use relayer.Chain.Pool.TxList
use relayer.Chain.Pool.TxList.{TxList, new_tx_list}
use relayer.Chain.Transaction.{Requests, Transaction, new_transaction, sender_address}

-- The channels and subscriptions of the struct stand in the messages of `loop_step`.
pub record TxPool (Request : Type 0) : Type 0 where
  pub nonce : ℕ
  pub pending : List (Bytes × TxList (Transaction Request))
  pub queue : List (Bytes × TxList (Transaction Request))

-- what the goroutine `loop` receives: a new head of the chain, or a request; none for nil
pub data PoolMessage (Request Block : Type 0) : Type 0 where
  chain_head : Option Block → PoolMessage Request Block
  event_source : Option Request → PoolMessage Request Block

unfoldable pub new_tx_pool : {Request : Type 0} → TxPool Request
new_tx_pool = record { nonce = 1; pending = []; queue = [] }

unfoldable pub keys : {V : Type 0} → List (Bytes × V) → List Bytes
keys [] = []
keys ((addr, v) ∷ m) = addr ∷ keys m

module _ {Request : Type 0} where
  abbrev pub tx_nonce : Transaction Request → ℕ
  tx_nonce tx = tx.nonce

  -- `m[addr]`, with the list that is made where there is none
  unfoldable pub list_at :
      Bool → Bytes → List (Bytes × TxList (Transaction Request)) → TxList (Transaction Request)
  list_at strict addr m = elim (Dict.get bytes_discrete addr m) [
    | none ↦ new_tx_list strict
    | some l ↦ l
  ]

  -- `promoteTx`; the nonce of a nil transaction cannot be asked for
  unfoldable pub promote_tx :
      Bytes → Option (Transaction Request) → TxPool Request → Outcome (TxPool Request × Bool)
  promote_tx addr none pool = panic nil_dereference
  promote_tx addr (some tx) pool = ok (
    record pool {
      pending =
          Dict.put bytes_discrete addr (TxList.add tx_nonce tx (list_at true addr pool.pending))
            pool.pending;
    },
    true,
  )

  -- the loop over the ready transactions in `promoteExecutables`
  unfoldable pub promote_all :
      Bytes → List (Option (Transaction Request)) → TxPool Request → Outcome (TxPool Request)
  promote_all addr [] pool = ok pool
  promote_all addr (tx ∷ txs) pool =
      promote_tx addr tx pool >>= λ (next, promoted). promote_all addr txs next

  -- what `promoteExecutables` does for one account
  unfoldable pub promote_account :
      Bytes → TxPool Request → Option (TxList (Transaction Request)) → Outcome (TxPool Request)
  promote_account addr pool none = panic explicit_panic
  promote_account addr pool (some list) = do
    let (txs, rest) = TxList.ready pool.nonce list
    next ←
        promote_all addr txs (record pool { queue = Dict.put bytes_discrete addr rest pool.queue })
    ok (
        if TxList.empty rest
        then record next { queue = Dict.delete bytes_discrete addr next.queue }
        else next)

  unfoldable pub promote_accounts : List Bytes → TxPool Request → Outcome (TxPool Request)
  promote_accounts [] pool = ok pool
  promote_accounts (addr ∷ addrs) pool =
      promote_account addr pool (Dict.get bytes_discrete addr pool.queue) >>= promote_accounts addrs

  -- none for nil: all the accounts of the queue
  unfoldable pub promote_executables :
      Option (List Bytes) → TxPool Request → Outcome (TxPool Request)
  promote_executables none pool = promote_accounts (keys pool.queue) pool
  promote_executables (some addrs) pool = promote_accounts addrs pool

  unfoldable pub get_tx_pool_size : TxPool Request → ℕ
  get_tx_pool_size pool = (length pool.pending + length pool.queue) % 2 ^ 64

  -- the loop of `Pending`, with the lists as they are after it
  unfoldable pub flatten_all :
      List (Bytes × TxList (Transaction Request))
      → List (Bytes × List (Transaction Request)) × List (Bytes × TxList (Transaction Request))
  flatten_all [] = ([], [])
  flatten_all ((addr, l) ∷ m) =
      let r = TxList.flatten tx_nonce l in
      let rest = flatten_all m in ((addr, r.0) ∷ rest.0, (addr, r.1) ∷ rest.1)

  unfoldable pub pending :
      TxPool Request → List (Bytes × List (Transaction Request)) × TxPool Request
  pending pool = let r = flatten_all pool.pending in (r.0, record pool { pending = r.1 })

  -- `txsb` of `PendingByChainId`
  unfoldable pub batches : List (Bytes × List (Transaction Request)) → List (Transaction Request)
  batches [] = []
  batches ((addr, txs) ∷ m) = txs ++ batches m

  -- its map `key`
  unfoldable pub chain_keys : List (Transaction Request) → List (ℕ × Bool) → List (ℕ × Bool)
  chain_keys [] key = key
  chain_keys (tx ∷ txs) key = chain_keys txs (elim (Dict.get ℕ_discrete tx.chain_id key) [
    | none ↦ Dict.put ℕ_discrete tx.chain_id true key
    | some false ↦ Dict.put ℕ_discrete tx.chain_id true key
    | some true ↦ key
  ])

  -- its `tmp`
  unfoldable pub of_chain : ℕ → List (Transaction Request) → List (Transaction Request)
  of_chain k [] = []
  of_chain k (tx ∷ txs) = let rest = of_chain k txs in if k == tx.chain_id then tx ∷ rest else rest

  unfoldable pub group :
      List (ℕ × Bool) → List (Transaction Request) → List (ℕ × List (Transaction Request))
  group [] txs = []
  group ((k, b) ∷ key) txs = (k, of_chain k txs) ∷ group key txs

  unfoldable pub pending_by_chain_id :
      TxPool Request → List (ℕ × List (Transaction Request)) × TxPool Request
  pending_by_chain_id pool =
      let r = pending pool in let txs = batches r.0 in (group (chain_keys txs []) txs, r.1)

  -- `reset` is empty.
  unfoldable pub reset : {Block : Type 0} → Block → Block → TxPool Request → TxPool Request
  reset old_head new_head pool = pool

module _ {Request : Type 0} (requests : Requests Request) where
  -- `add`; its error is always nil
  unfoldable pub add : Transaction Request → TxPool Request → TxPool Request
  add tx pool =
      let from = sender_address requests tx in
      record pool {
        queue =
            Dict.put bytes_discrete from (TxList.add tx_nonce tx (list_at false from pool.queue))
              pool.queue;
      }

  -- the first loop of `addEvLocked`, with the set of the senders
  unfoldable pub add_all :
      List (Transaction Request)
      → List (Bytes × Unit {0})
      → TxPool Request
      → List (Bytes × Unit {0}) × TxPool Request
  add_all [] senders pool = (senders, pool)
  add_all (tx ∷ txs) senders pool =
      add_all txs (Dict.put bytes_discrete (sender_address requests tx) tt senders) (add tx pool)

  unfoldable pub add_ev_locked :
      List (Transaction Request) → TxPool Request → Outcome (TxPool Request)
  add_ev_locked txs pool =
      let r = add_all txs [] pool in
      if length r.0 == 0 then ok r.1 else promote_executables (some (keys r.0)) r.1

  unfoldable pub add_event : Request → TxPool Request → Outcome (TxPool Request)
  add_event ev pool =
      if requests.has_chainid ev
      then add_ev_locked (new_transaction ev pool.nonce (requests.chainid ev) ∷ []) pool
        >>= (λ next. ok (record next { nonce = (next.nonce + 1) % 2 ^ 64 }))
      else panic nil_dereference

  -- one round of `loop`, with the head that it remembers, none for nil, whose header is read when a
  -- new one comes
  unfoldable pub loop_step :
      {Block : Type 0}
      → PoolMessage Request Block
      → Option Block × TxPool Request
      → Outcome (Option Block × TxPool Request)
  loop_step (chain_head none) (head, pool) = ok (head, pool)
  loop_step (chain_head (some block)) (none, pool) = panic nil_dereference
  loop_step (chain_head (some block)) (some head, pool) = ok (some block, reset head block pool)
  loop_step (event_source none) (head, pool) = ok (head, pool)
  loop_step (event_source (some ev)) (head, pool) = add_event ev pool >>= λ next. ok (head, next)

  -- `loop`, from what `CurrentBlock` gave, none for nil
  unfoldable pub loop :
      {Block : Type 0}
      → List (PoolMessage Request Block)
      → Option Block × TxPool Request
      → Outcome (Option Block × TxPool Request)
  loop [] s = ok s
  loop (msg ∷ msgs) s = loop_step msg s >>= loop msgs
