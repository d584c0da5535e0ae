-- ===== src/Chain/Pool/TxPool/Log.antt =====
-- That the pool of chain/tx_pool.go implements a log: the requests in the order of their arrival,
-- numbered from 1.
use relayer.Base.{
  ◌+◌, ◌%◌, ◌^◌, ◌<◌, List, [], ◌∷◌, Bytes, bytes_discrete, ℕ_discrete, Option, none, some, Bool,
  true, false, ◌&&◌, is_some, Bool-cases, inl, inr, Outcome, ok, panic, nil_dereference, length,
  ◌≡◌, ◌≢◌, refl, sym, ap, ◌∙◌, subst, arith, ite, In, ◌↔◌, ite_elim,
}
use relayer.Base.Dict
use relayer.Chain.Pool.TxMap
use relayer.Chain.Pool.TxMap.{TxSortedMap, new_tx_sorted_map}
use relayer.Chain.Pool.TxMap.Invariant.{IsTxMap, new-IsTxMap, put-IsTxMap}
use relayer.Chain.Pool.TxList
use relayer.Chain.Pool.TxList.{TxList, new_tx_list}
use relayer.Chain.Pool.TxPool.{
  TxPool, PoolMessage, chain_head, event_source, loop_step, loop, reset, new_tx_pool, tx_nonce,
  list_at, add_event,
}
use relayer.Chain.Transaction.{Requests, Transaction, new_transaction, sender_address}
use relayer.Chain.Pool.TxPool.Step.{add_event-eq}

module _ {Request : Type 0} (requests : Requests Request) where
  -- the log's next entry
  abbrev pub logged : List (Transaction Request) → Request → Transaction Request
  logged log ev = new_transaction ev (length log + 1) (requests.chainid ev)

  -- the log after some requests, the last one first
  abbrev pub log_of : List Request → List (Transaction Request) → List (Transaction Request)
  log_of [] log = log
  log_of (ev ∷ evs) log = log_of evs (logged log ev ∷ log)

  abbrev pub pending_map : Bytes → TxPool Request → TxSortedMap (Transaction Request)
  pending_map addr pool = (list_at true addr pool.pending).txs

  -- The pool holds the log: nothing is queued, and what is pending for an account are the log's
  -- transactions of that sender.
  pub record Implements (log : List (Transaction Request)) (pool : TxPool Request) : Type 0 where
    pub numbered : pool.nonce ≡ length log + 1
    pub idle : pool.queue ≡ []
    pub sound : (addr : Bytes) → IsTxMap tx_nonce (pending_map addr pool)
    pub holds :
        (addr : Bytes) (tx : Transaction Request)
        → (TxMap.get tx.nonce (pending_map addr pool) ≡ some tx)
          ↔ (In tx log × (sender_address requests tx ≡ addr))
    pub bounded : (tx : Transaction Request) → In tx log → tx.nonce < length log + 1
    pub keyed : Dict.Keyed bytes_discrete pool.pending

  new_tx_pool-Implements : Implements [] new_tx_pool
  unfolding new_tx_pool list_at new_tx_list Dict.get TxMap.get new_tx_sorted_map
  new_tx_pool-Implements = record {
    numbered = refl;
    idle = refl;
    sound = λ addr. new-IsTxMap tx_nonce;
    holds = λ addr tx. (λ e. cc, λ i. absurd i.0);
    bounded = λ tx i. absurd i;
    keyed = tt;
  }

  -- what is pending after a request
  pending_map-put :
      (addr from : Bytes) (tx : Transaction Request)
      (pending : List (Bytes × TxList (Transaction Request)))
      → (list_at true addr (
          Dict.put bytes_discrete from
            (TxList.add tx_nonce tx (list_at true from pending))
            pending)).txs
        ≡ ite
            (bytes_discrete from addr)
            (TxMap.put tx_nonce tx (list_at true from pending).txs)
            (list_at true addr pending).txs
  unfolding list_at TxList.add
  pending_map-put addr from tx pending = ground (
    arith,
    Dict.get-put bytes_discrete addr from (TxList.add tx_nonce tx (list_at true from pending))
        pending,
  )

  -- `get` after `put` for a nonce that is new
  get-put_iff :
      (log : List (Transaction Request)) (tx u : Transaction Request)
      (m : TxSortedMap (Transaction Request)) (addr : Bytes)
      → ((v : Transaction Request) → In v log → v.nonce < tx.nonce)
      → sender_address requests tx ≡ addr
      → (TxMap.get u.nonce m ≡ some u) ↔ (In u log × (sender_address requests u ≡ addr))
      → (TxMap.get u.nonce (TxMap.put tx_nonce tx m) ≡ some u)
        ↔ (In u (tx ∷ log) × (sender_address requests u ≡ addr))
  unfolding TxMap.get TxMap.put
  get-put_iff log tx u m addr later from old =
      let at = Dict.get-put ℕ_discrete u.nonce tx.nonce tx m.items in
      let apart : In u log → tx.nonce ≢ u.nonce = λ i e. absurd (omega (arith, later u i, e)) in
      let same : tx ≡ u → tx.nonce ≡ u.nonce = ap tx_nonce in
      let moved : tx ≡ u → sender_address requests u ≡ addr =
        λ e. ap (sender_address requests) (sym e) ∙ from in
      ground (arith, at, old, apart, same, moved)

  pending_after_sound :
      (log : List (Transaction Request)) (tx : Transaction Request) (pool : TxPool Request)
      → tx.nonce < 2 ^ 64
      → Implements log pool
      → (let from = sender_address requests tx in
          let after =
            Dict.put bytes_discrete from
              (TxList.add tx_nonce tx (list_at true from pool.pending))
              pool.pending in
          (addr : Bytes) → IsTxMap tx_nonce (list_at true addr after).txs)
  pending_after_sound log tx pool small h addr =
      let from = sender_address requests tx in
      rw (pending_map-put addr from tx pool.pending) (
        ite_elim (IsTxMap tx_nonce) (bytes_discrete from addr) _ _
          (λ here. put-IsTxMap tx_nonce tx (pending_map from pool) small (h.sound from))
          (λ other. h.sound addr))

  pending_after_holds :
      (log : List (Transaction Request)) (tx : Transaction Request) (pool : TxPool Request)
      → ((v : Transaction Request) → In v log → v.nonce < tx.nonce)
      → Implements log pool
      → (let from = sender_address requests tx in
          let after =
            Dict.put bytes_discrete from
              (TxList.add tx_nonce tx (list_at true from pool.pending))
              pool.pending in
          (addr : Bytes) (u : Transaction Request)
          → (TxMap.get u.nonce (list_at true addr after).txs ≡ some u)
            ↔ (In u (tx ∷ log) × (sender_address requests u ≡ addr)))
  pending_after_holds log tx pool later h addr u =
      let from = sender_address requests tx in
      rw (pending_map-put addr from tx pool.pending) (
        ite_elim
          (λ m.
            (TxMap.get u.nonce m ≡ some u) ↔ (In u (tx ∷ log) × (sender_address requests u ≡ addr)))
          (bytes_discrete from addr) _ _
          (λ here. get-put_iff log tx u (pending_map from pool) addr later here (
            subst
              (λ a.
                (TxMap.get u.nonce (pending_map from pool) ≡ some u)
                ↔ (In u log × (sender_address requests u ≡ a)))
              here (h.holds from u)))
          (λ other.
            let moved : tx ≡ u → from ≡ sender_address requests u = ap (sender_address requests) in
            ground (arith, h.holds addr u, moved, other)))

  add_event_nil :
      (ev : Request) (pool : TxPool Request)
      → requests.has_chainid ev ≡ false
      → add_event requests ev pool ≡ panic nil_dereference
  unfolding add_event
  add_event_nil ev pool e = rw e refl

  -- A request that the pool takes in is one that the log takes in, as long as the numbers last.
  add_event-Implements :
      (ev : Request) (log : List (Transaction Request)) (pool : TxPool Request)
      → requests.has_chainid ev ≡ true
      → length log + 2 < 2 ^ 64
      → Implements log pool
      → (next : TxPool Request) × (add_event requests ev pool ≡ ok next)
        × Implements (logged log ev ∷ log) next
  unfolding new_transaction
  add_event-Implements ev log pool has small h =
      let tx = logged log ev in
      let from = sender_address requests tx in
      let named : new_transaction ev pool.nonce (requests.chainid ev) ≡ tx =
        ap (λ n. new_transaction ev n (requests.chainid ev)) h.numbered in
      let eq =
        subst
          (λ t.
            add_event requests ev pool
            ≡ ok (record {
              nonce = (pool.nonce + 1) % 2 ^ 64;
              pending =
                  Dict.put bytes_discrete (sender_address requests t)
                    (TxList.add tx_nonce t (list_at true (sender_address requests t) pool.pending))
                    pool.pending;
              queue = [];
            }))
          named (add_event-eq requests ev pool has h.idle) in
      (
        _,
        eq,
        record {
          numbered = omega (arith, h.numbered);
          idle = refl;
          sound = pending_after_sound log tx pool (omega arith) h;
          holds = pending_after_holds log tx pool (λ v i. h.bounded v i) h;
          bounded = λ u i. ground (arith, h.bounded u, i);
          keyed = Dict.put-Keyed bytes_discrete from _ pool.pending h.keyed;
        },
      )

  -- the requests among some messages
  abbrev pub requests_in : {Block : Type 0} → List (PoolMessage Request Block) → List Request
  requests_in [] = []
  requests_in (chain_head block ∷ msgs) = requests_in msgs
  requests_in (event_source none ∷ msgs) = requests_in msgs
  requests_in (event_source (some ev) ∷ msgs) = ev ∷ requests_in msgs

  -- Every request has a chain, and no block comes while the head is nil.
  unfoldable pub all_there : {Block : Type 0} → List (PoolMessage Request Block) → Bool → Bool
  all_there [] head = true
  all_there (chain_head none ∷ msgs) head = all_there msgs head
  all_there (chain_head (some block) ∷ msgs) head = head && all_there msgs true
  all_there (event_source none ∷ msgs) head = all_there msgs head
  all_there (event_source (some ev) ∷ msgs) head = requests.has_chainid ev && all_there msgs head

  Goes :
      {Block : Type 0}
      → List (PoolMessage Request Block)
      → List (Transaction Request)
      → Option Block
      → Outcome (Option Block × TxPool Request)
      → Type 0
  Goes msgs log head o =
      (all_there msgs (is_some head) ≡ true
        → (r : _) × (o ≡ ok r) × Implements (log_of (requests_in msgs) log) r.1)
      × (all_there msgs (is_some head) ≡ false → o ≡ panic nil_dereference)

  loop-Goes :
      {Block : Type 0} (msgs : List (PoolMessage Request Block)) (log : List (Transaction Request))
      (head : Option Block) (pool : TxPool Request)
      → length log + length (requests_in msgs) + 1 < 2 ^ 64
      → Implements log pool
      → Goes msgs log head (loop requests msgs (head, pool))
  unfolding Goes all_there loop loop_step reset
  loop-Goes [] log head pool small h = (λ e. ((head, pool), refl, h), λ e. absurd (cc))
  loop-Goes (chain_head none ∷ msgs) log head pool small h = loop-Goes msgs log head pool small h
  loop-Goes (chain_head (some block) ∷ msgs) log none pool small h = (λ e. absurd (cc), λ e. refl)
  loop-Goes (chain_head (some block) ∷ msgs) log (some head) pool small h =
      loop-Goes msgs log (some block) pool small h
  loop-Goes (event_source none ∷ msgs) log head pool small h = loop-Goes msgs log head pool small h
  loop-Goes (event_source (some ev) ∷ msgs) log head pool small h =
      elim (Bool-cases (requests.has_chainid ev)) [
        | inl has ↦
            let (next, eq, k) = add_event-Implements ev log pool has (omega arith) h in
            rw has (rw eq (loop-Goes msgs (logged log ev ∷ log) head next (omega arith) k))
        | inr nil ↦ rw nil (λ e. absurd (cc), λ e. rw (add_event_nil ev pool nil) refl)
      ]

  -- From a new pool, the loop panics exactly if it receives a request without a chain, or a block
  -- while the head is nil, as it is from the start if the chain has no current block. If not, the pool
  -- that it leaves is the log of the requests received, numbered from 1 in their order: nothing is
  -- queued, the next nonce is one more than their number, and what is pending for an account are
  -- exactly the log's transactions of that sender. The requests are fewer than 2^64 - 1.
  pub loop_lem :
      {Block : Type 0} (msgs : List (PoolMessage Request Block)) (head : Option Block)
      → length (requests_in msgs) + 1 < 2 ^ 64
      → (all_there msgs (is_some head) ≡ true
          → (r : Option Block × TxPool Request) × (loop requests msgs (head, new_tx_pool) ≡ ok r)
            × Implements (log_of (requests_in msgs) []) r.1)
        × (all_there msgs (is_some head) ≡ false
            → loop requests msgs (head, new_tx_pool) ≡ panic nil_dereference)
  unfolding Goes
  loop_lem msgs head small =
      loop-Goes msgs [] head new_tx_pool (omega (arith, small)) new_tx_pool-Implements
