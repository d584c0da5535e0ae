-- ===== src/Chain/Pool/TxPool/Pending.antt =====
-- What `Pending` of chain/tx_pool.go gives, in terms of the log that the pool holds.
use relayer.Base.{
  ℕ, List, [], ◌∷◌, Bytes, bytes_discrete, Option, none, some, true, ◌≡◌, ◌≢◌, refl, sym, ap, ◌∙◌,
  subst, arith, ◌⊎◌, inl, inr, In, ◌↔◌, Option-cases,
}
use relayer.Base.Dict
use relayer.Chain.Pool.TxMap
use relayer.Chain.Pool.TxMap.{TxSortedMap, new_tx_sorted_map}
use relayer.Chain.Pool.TxMap.Sorted.{Ascending}
use relayer.Chain.Pool.TxMap.Invariant.{IsTxMap, flatten_lem}
use relayer.Chain.Pool.TxList
use relayer.Chain.Pool.TxList.{TxList, new_tx_list}
use relayer.Chain.Pool.TxPool.{TxPool, tx_nonce, list_at, flatten_all, pending}
use relayer.Chain.Pool.TxPool.Log.{Implements, pending_map}
use relayer.Chain.Transaction.{Requests, Transaction, sender_address}

module _ {Request : Type 0} where
  pub get-flatten_all :
      (addr : Bytes) (m : List (Bytes × TxList (Transaction Request)))
      → (Dict.get bytes_discrete addr (flatten_all m).0 ≡ elim (Dict.get bytes_discrete addr m) [
        | none ↦ none
        | some l ↦ some (TxMap.flatten tx_nonce l.txs).0
      ])
        × (Dict.get bytes_discrete addr (flatten_all m).1 ≡ elim (Dict.get bytes_discrete addr m) [
          | none ↦ none
          | some l ↦ some (TxList.flatten tx_nonce l).1
        ])
  unfolding flatten_all Dict.get TxList.flatten
  get-flatten_all addr [] = (refl, refl)
  get-flatten_all addr ((a, l) ∷ m) = ground (arith, get-flatten_all addr m)

  pub flatten_all-Keyed :
      (m : List (Bytes × TxList (Transaction Request)))
      → Dict.Keyed bytes_discrete m
      → Dict.Keyed bytes_discrete (flatten_all m).0 × Dict.Keyed bytes_discrete (flatten_all m).1
  unfolding flatten_all
  flatten_all-Keyed [] k = (tt, tt)
  flatten_all-Keyed ((a, l) ∷ m) k =
      let (p, q) = flatten_all-Keyed m k.1 in
      let (u, v) = get-flatten_all a m in ((ground (arith, u, k.0), p), (ground (arith, v, k.0), q))

module _ {Request : Type 0} (requests : Requests Request) where
  pending_map_absent :
      (addr : Bytes) (pool : TxPool Request)
      → Dict.get bytes_discrete addr pool.pending ≡ none
      → pending_map requests addr pool ≡ new_tx_sorted_map
  unfolding list_at new_tx_list
  pending_map_absent addr pool e =
      ap
        (λ (o : Option (TxList (Transaction Request))).
          (elim o as (λ x. TxList (Transaction Request)) [
            | none ↦ new_tx_list true
            | some l ↦ l
          ]).txs)
        e

  pending_map_present :
      (addr : Bytes) (pool : TxPool Request) (l : TxList (Transaction Request))
      → Dict.get bytes_discrete addr pool.pending ≡ some l
      → pending_map requests addr pool ≡ l.txs
  unfolding list_at
  pending_map_present addr pool l e =
      ap
        (λ (o : Option (TxList (Transaction Request))).
          (elim o as (λ x. TxList (Transaction Request)) [
            | none ↦ new_tx_list true
            | some l ↦ l
          ]).txs)
        e

  -- An account without a list has sent nothing.
  pub unlisted :
      (log : List (Transaction Request)) (pool : TxPool Request) (addr : Bytes)
      → Implements requests log pool
      → Dict.get bytes_discrete addr pool.pending ≡ none
      → (u : Transaction Request) → In u log
      → sender_address requests u ≢ addr
  unfolding TxMap.get new_tx_sorted_map Dict.get
  unlisted log pool addr h absent u i e =
      let held = (h.holds addr u).1 (i, e) in
      let gone = ap (TxMap.get u.nonce) (pending_map_absent addr pool absent) in cc

  -- A list of the pending map is sound, and lists the log's transactions of its account.
  pub listed :
      (log : List (Transaction Request)) (pool : TxPool Request) (addr : Bytes)
      (l : TxList (Transaction Request))
      → Implements requests log pool
      → Dict.get bytes_discrete addr pool.pending ≡ some l
      → Ascending tx_nonce (TxMap.flatten tx_nonce l.txs).0
        × ((u : Transaction Request)
            → In u (TxMap.flatten tx_nonce l.txs).0
              ↔ (In u log × (sender_address requests u ≡ addr)))
        × IsTxMap tx_nonce (TxMap.flatten tx_nonce l.txs).1
        × ((n : ℕ) → TxMap.get n (TxMap.flatten tx_nonce l.txs).1 ≡ TxMap.get n l.txs)
  listed log pool addr l h e =
      let same = pending_map_present addr pool l e in
      let (ascending, there, kept, gets) =
        flatten_lem tx_nonce l.txs (subst (IsTxMap tx_nonce) same (h.sound addr)) in
      (
        ascending,
        λ u.
            let held =
              subst
                (λ m.
                  (TxMap.get u.nonce m ≡ some u) ↔ (In u log × (sender_address requests u ≡ addr)))
                same (h.holds addr u) in
            ((λ i. held.0 ((there u).0 i)), (λ i. (there u).1 (held.1 i))),
        kept,
        gets,
      )

  pending_map-after :
      (addr : Bytes) (pool : TxPool Request)
      → (pending_map requests addr (pending pool).1 ≡ pending_map requests addr pool)
        ⊎ ((l : TxList (Transaction Request)) × (Dict.get bytes_discrete addr pool.pending ≡ some l)
            × (pending_map requests addr (pending pool).1 ≡ (TxMap.flatten tx_nonce l.txs).1))
  unfolding pending TxList.flatten
  pending_map-after addr pool =
      let after = (get-flatten_all addr pool.pending).1 in
      elim (Option-cases (Dict.get bytes_discrete addr pool.pending)) [
        | inl absent ↦ inl (
            pending_map_absent addr (pending pool).1 (ground (arith, after, absent))
            ∙ sym (pending_map_absent addr pool absent))
        | inr (l, e) ↦ inr (
          l,
          e,
          pending_map_present addr (pending pool).1 (TxList.flatten tx_nonce l).1
              (ground (arith, after, e)),
        )
      ]

  pub pending-Implements :
      (log : List (Transaction Request)) (pool : TxPool Request)
      → Implements requests log pool
      → Implements requests log (pending pool).1
  unfolding pending
  pending-Implements log pool h = record {
    numbered = h.numbered;
    idle = h.idle;
    sound = λ addr. elim (pending_map-after addr pool) [
      | inl same ↦ subst (IsTxMap tx_nonce) (sym same) (h.sound addr)
      | inr (l, e, after) ↦ subst (IsTxMap tx_nonce) (sym after) (listed log pool addr l h e).2
    ];
    holds = λ addr u. elim (pending_map-after addr pool) [
      | inl same ↦
          subst
            (λ m. (TxMap.get u.nonce m ≡ some u) ↔ (In u log × (sender_address requests u ≡ addr)))
            (sym same) (h.holds addr u)
      | inr (l, e, after) ↦
          let gets =
            ap (TxMap.get u.nonce) after
            ∙ (listed log pool addr l h e).3 u.nonce
            ∙ ap (TxMap.get u.nonce) (sym (pending_map_present addr pool l e)) in
          subst (λ o. (o ≡ some u) ↔ (In u log × (sender_address requests u ≡ addr))) (sym gets)
            (h.holds addr u)
    ];
    bounded = h.bounded;
    keyed = (flatten_all-Keyed pool.pending h.keyed).1;
  }

  -- `Pending` lists, for every account, exactly the log's transactions of that sender, by ascending
  -- nonces; it leaves a pool that holds the same log.
  pub pending_lem :
      (log : List (Transaction Request)) (pool : TxPool Request)
      → Implements requests log pool
      → ((addr : Bytes)
          → ((Dict.get bytes_discrete addr (pending pool).0 ≡ none)
              × ((u : Transaction Request) → In u log → sender_address requests u ≢ addr))
            ⊎ ((txs : List (Transaction Request)) × (Dict.get bytes_discrete addr (pending pool).0
                  ≡ some txs)
                × Ascending tx_nonce txs
                × ((u : Transaction Request)
                    → In u txs ↔ (In u log × (sender_address requests u ≡ addr)))))
        × Implements requests log (pending pool).1
  unfolding pending
  pending_lem log pool h = (
    λ addr. elim (Option-cases (Dict.get bytes_discrete addr pool.pending)) [
      | inl absent ↦ inl (
        ground (arith, (get-flatten_all addr pool.pending).0, absent),
        unlisted log pool addr h absent,
      )
      | inr (l, e) ↦
          let (ascending, there, kept, gets) = listed log pool addr l h e in
          inr (_, ground (arith, (get-flatten_all addr pool.pending).0, e), ascending, there)
    ],
    pending-Implements log pool h,
  )
