-- ===== src/Tests/Pool.antt =====
-- chain/tx_list.go and chain/tx_pool.go at small inputs. A request is a number here: its last digit
-- is the sender, the others are the chain.
use relayer.Base.{
  false, length, not, ◌==◌, nil_dereference, panic, Option, ℕ, true, ◌+◌, ◌/◌, ◌%◌, ◌<◌, ◌≤◌, ◌==◌,
  List, [], ◌∷◌, none, some, length, if◌then◌else◌, Bytes, bytes_discrete, ℕ_discrete, ok, ◌≡◌, ◌≢◌,
  ◌⊎◌, ◌↔◌, In, refl, subst, arith,
}
use relayer.Base.Dict
use relayer.Chain.Transaction.{Requests, Transaction, new_transaction, sender_address}
use relayer.Chain.Pool.Heap.{
  slot, write, less, swap, push_last, pop_last, up, child, down, heap_push, heap_pop,
}
use relayer.Chain.Pool.Heap.Slots.{count}
use relayer.Chain.Pool.Heap.Order.{IsHeap}
use relayer.Chain.Pool.Heap.Sift.{heap_push_lem, heap_pop_lem}
use relayer.Chain.Pool.TxMap
use relayer.Chain.Pool.TxMap.{
  TxSortedMap, new_tx_sorted_map, put, ready, ready_loop, flatten, get, values, sort_by_nonce,
  insert_by_nonce,
}
use relayer.Chain.Pool.TxMap.Sorted.{Ascending}
use relayer.Chain.Pool.TxMap.Invariant.{IsTxMap, new-IsTxMap, put-IsTxMap}
use relayer.Chain.Pool.TxMap.Ready.{Takes, ready_lem}
use relayer.Chain.Pool.TxList
use relayer.Chain.Pool.TxList.{TxList, new_tx_list}
use relayer.Chain.Pool.TxPool.{
  TxPool, PoolMessage, chain_head, event_source, new_tx_pool, tx_nonce, loop, pending,
  pending_by_chain_id, loop_step, add_event, add_ev_locked, add_all, add, keys, promote_executables,
  promote_accounts, promote_account, promote_all, promote_tx, list_at, reset, flatten_all, batches,
  chain_keys, of_chain, group,
}
use relayer.Chain.Pool.TxPool.Log.{all_there, Implements, log_of, requests_in, loop_lem}
use relayer.Chain.Pool.TxPool.Pending.{pending_lem}
use relayer.Chain.Pool.TxPool.Groups.{Distinct, pending_by_chain_id_lem}

abbrev three_nonces : List ℕ
three_nonces = heap_push 2 (heap_push 7 (heap_push 5 []))

three_nonces-IsHeap : IsHeap three_nonces
three_nonces-IsHeap =
    (heap_push_lem 2 _
      (heap_push_lem 7 _ (heap_push_lem 5 [] (λ k p q. absurd (omega arith))).0).0).0

-- The least nonce comes to the front.
pushed : three_nonces ≡ 2 ∷ 7 ∷ 5 ∷ []
unfolding heap_push push_last up swap write slot less
pushed = refl

heap_pop_lem_example :
    ((heap_pop three_nonces).0 ≡ slot three_nonces 0)
    × IsHeap (heap_pop three_nonces).1
    × (length (heap_pop three_nonces).1 + 1 ≡ length three_nonces)
    × ((u : ℕ)
        → count u (heap_pop three_nonces).1 + (if slot three_nonces 0 == u then 1 else 0)
          ≡ count u three_nonces)
heap_pop_lem_example = heap_pop_lem three_nonces three_nonces-IsHeap (
    omega (
      arith,
      (heap_push_lem 2 (heap_push 7 (heap_push 5 []))
          (heap_push_lem 7 _ (heap_push_lem 5 [] (λ k p q. absurd (omega arith))).0).0).1,
    ))

-- transactions that are their own nonces
abbrev self : ℕ → ℕ
self n = n

abbrev gapped : TxSortedMap ℕ
gapped = put self 5 (put self 3 (put self 4 new_tx_sorted_map))

gapped-IsTxMap : IsTxMap self gapped
gapped-IsTxMap =
    put-IsTxMap self 5 _ (omega arith)
      (put-IsTxMap self 3 _ (omega arith) (put-IsTxMap self 4 _ (omega arith) (new-IsTxMap self)))

ready_lem_example :
    ((ready 3 gapped ≡ ([], gapped)) × ((n : ℕ) (tx : ℕ) → get n gapped ≡ some tx → 3 < n))
    ⊎ ((first : ℕ) × (first ≤ 3)
        × ((tx : ℕ) × (get first gapped ≡ some tx))
        × ((n : ℕ) (tx : ℕ) → get n gapped ≡ some tx → first ≤ n)
        × (Takes first gapped.items (ready 3 gapped).0 (ready 3 gapped).1.items
            × IsTxMap self (ready 3 gapped).1))
ready_lem_example = ready_lem self 3 gapped gapped-IsTxMap

-- A nonce below the start stays when a lower one is not next to it.
ready_leaves :
    ready 5 (put self 3 (put self 1 new_tx_sorted_map))
    ≡ (some 1 ∷ [], record { items = (3, 3) ∷ []; index = 3 ∷ []; cache = none })
unfolding ready ready_loop put new_tx_sorted_map Dict.get Dict.put Dict.delete ℕ_discrete heap_push
    heap_pop push_last pop_last up down child swap write slot less
ready_leaves = refl

abbrev digits : Requests ℕ
digits = record {
  bridge = λ n. (n % 10) ∷ [];
  has_chainid = λ n. not (n == 0);
  chainid = λ n. n / 10;
  genesis = λ b. 0;
}

abbrev arrivals : List (PoolMessage ℕ ℕ)
arrivals =
    event_source (some 561)
    ∷ chain_head (some 2)
    ∷ event_source (some 972)
    ∷ event_source none
    ∷ event_source (some 971)
    ∷ []

loop_lem_example :
    (all_there digits arrivals true ≡ true
      → (r : Option ℕ × TxPool ℕ) × (loop digits arrivals (some 1, new_tx_pool) ≡ ok r)
        × Implements digits (log_of digits (requests_in digits arrivals) []) r.1)
    × (all_there digits arrivals true ≡ false
        → loop digits arrivals (some 1, new_tx_pool) ≡ panic nil_dereference)
loop_lem_example = loop_lem digits arrivals (some 1) (omega arith)

abbrev pooled : ℕ → ℕ → Transaction ℕ
pooled ev nonce = record { chain_id = ev / 10; origin_data = ev; nonce = nonce }

abbrev one_by : ℕ → List ℕ → List (ℕ × Transaction ℕ) → TxList (Transaction ℕ)
one_by stk index items = record {
  strict = true;
  txs = record { items = items; index = index; cache = none };
  last_stk_check = stk;
}

abbrev three_pooled : TxPool ℕ
three_pooled = record {
  nonce = 4;
  pending =
      (1 ∷ [], one_by 0 (1 ∷ 3 ∷ []) ((3, pooled 971 3) ∷ (1, pooled 561 1) ∷ []))
      ∷ (2 ∷ [], one_by 0 (2 ∷ []) ((2, pooled 972 2) ∷ []))
      ∷ [];
  queue = [];
}

pool_code : Unit {0}
unfolding loop loop_step add_event add_ev_locked add_all add keys promote_executables
    promote_accounts promote_account promote_all promote_tx list_at TxList.ready TxList.empty
    TxList.list_len TxList.add TxMap.map_len new_tx_list new_tx_pool ready ready_loop put
    new_tx_sorted_map Dict.get Dict.put Dict.delete ℕ_discrete bytes_discrete heap_push heap_pop
    push_last pop_last up down child swap write slot less sender_address new_transaction reset
    pending pending_by_chain_id flatten_all TxList.flatten flatten values sort_by_nonce
    insert_by_nonce batches chain_keys of_chain group
pool_code = tt

arrived : loop digits arrivals (some 1, new_tx_pool) ≡ ok (some 2, three_pooled)
unfolding pool_code
arrived = refl

-- A block that comes where the chain had none, and a request without a chain.
no_head : loop digits arrivals (none, new_tx_pool) ≡ panic nil_dereference
unfolding pool_code
no_head = refl

no_chain :
    loop digits (event_source (some 0) ∷ []) (some (length arrivals), new_tx_pool)
    ≡ panic nil_dereference
unfolding pool_code
no_chain = refl

for_chain_97 :
    Dict.get ℕ_discrete 97 (pending_by_chain_id three_pooled).0
    ≡ some (pooled 971 3 ∷ pooled 972 2 ∷ [])
unfolding pool_code
for_chain_97 = refl

all_arrive : all_there digits arrivals true ≡ true
unfolding all_there
all_arrive = refl

three_pooled-Implements : Implements digits (log_of digits (561 ∷ 972 ∷ 971 ∷ []) []) three_pooled
three_pooled-Implements =
    let (r, e, h) = (loop_lem digits arrivals (some 1) (omega arith)).0 all_arrive in
    let known = arrived in
    let same : r ≡ (some 2, three_pooled) = cc in
    subst (λ q. Implements digits (log_of digits (561 ∷ 972 ∷ 971 ∷ []) []) q.1) same h

pending_lem_example :
    ((addr : Bytes)
      → ((Dict.get bytes_discrete addr (pending three_pooled).0 ≡ none)
          × ((u : Transaction ℕ)
              → In u (log_of digits (561 ∷ 972 ∷ 971 ∷ []) [])
              → sender_address digits u ≢ addr))
        ⊎ ((txs : List (Transaction ℕ)) × (Dict.get bytes_discrete addr (pending three_pooled).0
              ≡ some txs)
            × Ascending tx_nonce txs
            × ((u : Transaction ℕ)
                → In u txs ↔ (
                    In u (log_of digits (561 ∷ 972 ∷ 971 ∷ []) [])
                    × (sender_address digits u ≡ addr)))))
    × Implements digits (log_of digits (561 ∷ 972 ∷ 971 ∷ []) []) (pending three_pooled).1
pending_lem_example = pending_lem digits _ three_pooled three_pooled-Implements

pending_by_chain_id_lem_example :
    ((Dict.get ℕ_discrete 97 (pending_by_chain_id three_pooled).0 ≡ none)
      × ((u : Transaction ℕ) → In u (log_of digits (561 ∷ 972 ∷ 971 ∷ []) []) → u.chain_id ≢ 97))
    ⊎ ((txs : List (Transaction ℕ)) × (Dict.get ℕ_discrete 97 (pending_by_chain_id three_pooled).0
          ≡ some txs)
        × ((u : Transaction ℕ)
            → In u txs ↔ (In u (log_of digits (561 ∷ 972 ∷ 971 ∷ []) []) × (u.chain_id ≡ 97)))
        × Distinct txs
        × ((u : Transaction ℕ) × In u txs))
pending_by_chain_id_lem_example =
    pending_by_chain_id_lem digits _ three_pooled three_pooled-Implements 97
