-- ===== src/Chain/Pool/TxPool/Step.antt =====
-- What `AddEvent` of chain/tx_pool.go comes to, from the queue through to the pending list.
use relayer.Base.{
  ℕ, ◌+◌, ◌%◌, ◌^◌, ◌==◌, ltb, List, [], ◌∷◌, Bytes, bytes_discrete, ℕ_discrete, some, true, false,
  ok, ◌≡◌, refl, ap, ◌∙◌, arith,
}
use relayer.Base.Dict
use relayer.Chain.Pool.Heap.{slot, write, swap, push_last, pop_last, up, down, heap_push, heap_pop}
use relayer.Chain.Pool.TxMap
use relayer.Chain.Pool.TxMap.{TxSortedMap, new_tx_sorted_map}
use relayer.Chain.Pool.TxList
use relayer.Chain.Pool.TxList.{TxList, new_tx_list}
use relayer.Chain.Pool.TxPool.{
  TxPool, tx_nonce, list_at, promote_tx, promote_all, promote_account, promote_accounts,
  promote_executables, keys, add, add_all, add_ev_locked, add_event,
}
use relayer.Chain.Transaction.{Requests, Transaction, new_transaction, sender_address}

-- What is pushed on an empty heap is all of it, and to pop it leaves none.
heap_push-none : (n : ℕ) → heap_push n [] ≡ n ∷ []
unfolding heap_push push_last up
heap_push-none n = refl

heap_pop-one : (n : ℕ) → (heap_pop (n ∷ [])).1 ≡ []
unfolding heap_pop pop_last down swap write
heap_pop-one n = refl

module _ {Request : Type 0} where
  -- A map with one transaction gives it back and is empty.
  ready-one :
      (tx : Transaction Request)
      → TxMap.ready tx.nonce (TxMap.put tx_nonce tx new_tx_sorted_map)
        ≡ (some tx ∷ [], new_tx_sorted_map)
  unfolding TxMap.ready TxMap.ready_loop TxMap.put new_tx_sorted_map Dict.put slot Dict.get
      ℕ_discrete Dict.delete
  ready-one tx =
      let least : ltb tx.nonce tx.nonce ≡ false = ground arith in
      let same : (tx.nonce == tx.nonce) ≡ true = ground arith in
      rw (heap_push-none tx.nonce) (
        rw least (
          rw same (
            rw (heap_pop-one tx.nonce) (
              rw (Dict.get_one ℕ_discrete tx.nonce tx)
                (rw (Dict.delete_one ℕ_discrete tx.nonce tx) refl)))))

module _ {Request : Type 0} (requests : Requests Request) where
  ready_list-one :
      (tx : Transaction Request)
      → TxList.ready tx.nonce (TxList.add tx_nonce tx (new_tx_list false))
        ≡ (some tx ∷ [], new_tx_list false)
  unfolding TxList.ready TxList.add new_tx_list
  ready_list-one tx = rw (ready-one tx) refl

  -- what is left of a queue that holds one request
  promote_account-one :
      (tx : Transaction Request) (addr : Bytes)
      (pending : List (Bytes × TxList (Transaction Request)))
      → (let list = TxList.add tx_nonce tx (new_tx_list false) in
          promote_account addr
            (record { nonce = tx.nonce; pending = pending; queue = (addr, list) ∷ [] })
            (some list)
          ≡ ok (record {
            nonce = tx.nonce;
            pending =
                Dict.put bytes_discrete addr
                  (TxList.add tx_nonce tx (list_at true addr pending))
                  pending;
            queue = [];
          }))
  unfolding promote_account promote_all promote_tx Dict.put TxList.empty TxList.list_len
      TxMap.map_len new_tx_list new_tx_sorted_map
  promote_account-one tx addr pending = rw (ready_list-one tx) (
      rw (Dict.delete_one bytes_discrete addr (TxList.add tx_nonce tx (new_tx_list false))) (
        rw (Dict.delete_one bytes_discrete addr (new_tx_list {Tx = Transaction Request} false))
          refl))

  add_ev_locked-one :
      (tx : Transaction Request) (pending : List (Bytes × TxList (Transaction Request)))
      → (let from = sender_address requests tx in
          add_ev_locked requests
            (tx ∷ [])
            (record { nonce = tx.nonce; pending = pending; queue = [] })
          ≡ ok (record {
            nonce = tx.nonce;
            pending =
                Dict.put bytes_discrete from
                  (TxList.add tx_nonce tx (list_at true from pending))
                  pending;
            queue = [];
          }))
  unfolding add_ev_locked add_all add keys promote_executables promote_accounts list_at Dict.get
      Dict.delete Dict.put
  add_ev_locked-one tx pending =
      let from = sender_address requests tx in
      let list = TxList.add tx_nonce tx (new_tx_list false) in
      rw (Dict.get_one bytes_discrete from list) (rw (promote_account-one tx from pending) refl)

  pub add_event-eq :
      (ev : Request) (pool : TxPool Request)
      → requests.has_chainid ev ≡ true
      → pool.queue ≡ []
      → (let tx = new_transaction ev pool.nonce (requests.chainid ev) in
          let from = sender_address requests tx in
          add_event requests ev pool
          ≡ ok (record {
            nonce = (pool.nonce + 1) % 2 ^ 64;
            pending =
                Dict.put bytes_discrete from
                  (TxList.add tx_nonce tx (list_at true from pool.pending))
                  pool.pending;
            queue = [];
          }))
  unfolding add_event new_transaction
  add_event-eq ev pool has e =
      let tx = new_transaction ev pool.nonce (requests.chainid ev) in
      let same : pool ≡ record { nonce = pool.nonce; pending = pool.pending; queue = [] } =
        ap (λ q. record { nonce = pool.nonce; pending = pool.pending; queue = q }) e in
      let step = ap (add_ev_locked requests (tx ∷ [])) same ∙ add_ev_locked-one tx pool.pending in
      rw has (rw step refl)
