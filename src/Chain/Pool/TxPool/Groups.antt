-- ===== src/Chain/Pool/TxPool/Groups.antt =====
-- What `PendingByChainId` of chain/tx_pool.go gives, in terms of the log that the pool holds.
use relayer.Base.{
  ℕ, List, [], ◌∷◌, ◌++◌, Bytes, bytes_discrete, ℕ_discrete, none, some, Bool, true, false, ◌≡◌,
  ◌≢◌, refl, sym, ap, ◌∙◌, ◌==◌, if_elim, subst, arith, ◌⊎◌, inl, inr, In, ◌↔◌, Option-cases,
  if_pos,
}
use relayer.Base.Dict
use relayer.Chain.Pool.TxMap
use relayer.Chain.Pool.TxMap.{TxSortedMap}
use relayer.Chain.Pool.TxMap.Sorted.{Ascending}
use relayer.Chain.Pool.TxList.{TxList}
use relayer.Chain.Pool.TxPool.{
  TxPool, tx_nonce, flatten_all, pending, batches, chain_keys, of_chain, group, pending_by_chain_id,
}
use relayer.Chain.Pool.TxPool.Log.{Implements}
use relayer.Chain.Pool.TxPool.Pending.{get-flatten_all, flatten_all-Keyed, listed, unlisted}
use relayer.Chain.Transaction.{Requests, Transaction, sender_address}

-- the keys after one transaction
abbrev marked : ℕ → List (ℕ × Bool) → List (ℕ × Bool)
marked c key = elim (Dict.get ℕ_discrete c key) [
  | none ↦ Dict.put ℕ_discrete c true key
  | some false ↦ Dict.put ℕ_discrete c true key
  | some true ↦ key
]

marked-get :
    (k c : ℕ) (key : List (ℕ × Bool))
    → (Dict.get ℕ_discrete k (marked c key) ≡ none) ↔ ((Dict.get ℕ_discrete k key ≡ none) × (c ≢ k))
marked-get k c key = elim (ℕ_discrete c k) [
  | yes same ↦
      let here = ap (λ n. Dict.get ℕ_discrete n key) same in
      ground (arith, Dict.get-put ℕ_discrete k c true key, same, here)
  | no other ↦ ground (arith, Dict.get-put ℕ_discrete k c true key, other)
]

module _ {Request : Type 0} where
  In-append :
      (u : Transaction Request) (xs ys : List (Transaction Request))
      → In u (xs ++ ys) ↔ (In u xs ⊎ In u ys)
  In-append u [] ys = ground arith
  In-append u (x ∷ xs) ys = ground (arith, In-append u xs ys)

  In-cases : (xs : List (Transaction Request)) → (xs ≡ []) ⊎ ((u : Transaction Request) × In u xs)
  In-cases [] = inl refl
  In-cases (x ∷ xs) = inr (x, inl refl)

  -- In the batches is what is in the batch of some account.
  batches-In :
      (u : Transaction Request) (m : List (Bytes × List (Transaction Request)))
      → Dict.Keyed bytes_discrete m
      → In u (batches m)
      → (addr : Bytes) × (txs : List (Transaction Request)) × (Dict.get bytes_discrete addr m
          ≡ some txs)
        × In u txs
  unfolding batches Dict.get
  batches-In u [] k i = absurd i
  batches-In u ((a, l) ∷ m) k i = elim ((In-append u l (batches m)).0 i) [
    | inl here ↦
        (a, l, if_pos (bytes_discrete a a) refl (some l) (Dict.get bytes_discrete a m), here)
    | inr later ↦
        let (addr, txs, e, j) = batches-In u m k.1 later in (addr, txs, ground (arith, e, k.0), j)
  ]

  In-batches :
      (u : Transaction Request) (m : List (Bytes × List (Transaction Request))) (addr : Bytes)
      (txs : List (Transaction Request))
      → Dict.get bytes_discrete addr m ≡ some txs
      → In u txs
      → In u (batches m)
  unfolding batches Dict.get
  In-batches u [] addr txs e i = cc
  In-batches u ((a, l) ∷ m) addr txs e i =
      ground (arith, In-append u l (batches m), In-batches u m addr txs)

  of_chain-In :
      (k : ℕ) (u : Transaction Request) (txs : List (Transaction Request))
      → In u (of_chain k txs) ↔ (In u txs × (u.chain_id ≡ k))
  unfolding of_chain
  of_chain-In k u [] = ground arith
  of_chain-In k u (tx ∷ txs) =
      let moved : tx ≡ u → tx.chain_id ≡ u.chain_id = ap (λ t. t.chain_id) in
      ground (arith, of_chain-In k u txs, moved)

  -- No transaction stands twice in a list.
  abbrev pub Distinct : List (Transaction Request) → Type 0
  Distinct [] = Unit {0}
  Distinct (t ∷ ts) = (¬ In t ts) × Distinct ts

  Ascending-Distinct : (txs : List (Transaction Request)) → Ascending tx_nonce txs → Distinct txs
  Ascending-Distinct [] a = tt
  Ascending-Distinct (t ∷ ts) a = (λ i. absurd (omega (arith, a.0 t i)), Ascending-Distinct ts a.1)

  append-Distinct :
      (xs ys : List (Transaction Request))
      → Distinct xs
      → Distinct ys
      → ((u : Transaction Request) → In u xs → ¬ In u ys)
      → Distinct (xs ++ ys)
  append-Distinct [] ys p q apart = q
  append-Distinct (x ∷ xs) ys p q apart = (
    λ i. elim ((In-append x xs ys).0 i) [
      | inl here ↦ p.0 here
      | inr there ↦ apart x (inl refl) there
    ],
    append-Distinct xs ys p.1 q (λ u i. apart u (inr i)),
  )

  of_chain-Distinct :
      (k : ℕ) (txs : List (Transaction Request)) → Distinct txs → Distinct (of_chain k txs)
  unfolding of_chain
  of_chain-Distinct k [] d = tt
  of_chain-Distinct k (tx ∷ txs) d =
      if_elim Distinct (k == tx.chain_id) _ _
        (λ i. d.0 ((of_chain-In k tx txs).0 i).0, of_chain-Distinct k txs d.1)
        (of_chain-Distinct k txs d.1)

  -- The batches of different accounts have nothing in common.
  batches-Distinct :
      (sender : Transaction Request → Bytes) (m : List (Bytes × List (Transaction Request)))
      → Dict.Keyed bytes_discrete m
      → ((addr : Bytes) (txs : List (Transaction Request))
          → Dict.get bytes_discrete addr m ≡ some txs
          → Distinct txs × ((u : Transaction Request) → In u txs → sender u ≡ addr))
      → Distinct (batches m)
  unfolding batches Dict.get
  batches-Distinct sender [] k h = tt
  batches-Distinct sender ((a, l) ∷ m) k h =
      let first = h a l (if_pos (bytes_discrete a a) refl (some l) (Dict.get bytes_discrete a m)) in
      append-Distinct l (batches m) first.0
        (batches-Distinct sender m k.1 (λ addr txs e. h addr txs (ground (arith, e, k.0))))
        (λ u i j.
          let (addr, txs, e, there) = batches-In u m k.1 j in
          let later = (h addr txs (ground (arith, e, k.0))).1 u there in
          let same = ap (λ b. Dict.get bytes_discrete b m) (sym (first.1 u i) ∙ later) in
          absurd (cc (k.0, e, same)))

  chain_keys-get :
      (k : ℕ) (txs : List (Transaction Request)) (key : List (ℕ × Bool))
      → (Dict.get ℕ_discrete k (chain_keys txs key) ≡ none) ↔ (
          (Dict.get ℕ_discrete k key ≡ none)
          × ((u : Transaction Request) → In u txs → u.chain_id ≢ k))
  unfolding chain_keys
  chain_keys-get k [] key = (λ e. (e, λ u i. absurd i), λ h. h.0)
  chain_keys-get k (tx ∷ txs) key =
      let rest = chain_keys-get k txs (marked tx.chain_id key) in
      let first = marked-get k tx.chain_id key in
      (
        λ e.
            let (absent, others) = rest.0 e in
            let (before, apart) = first.0 absent in
            (
              before,
              λ u i. elim i [
                | inl here ↦ subst (λ t. t.chain_id ≢ k) here apart
                | inr later ↦ others u later
              ],
            ),
        λ h. rest.1 (first.1 (h.0, h.1 tx (inl refl)), λ u i. h.1 u (inr i)),
      )

  group-get :
      (k : ℕ) (key : List (ℕ × Bool)) (txs : List (Transaction Request))
      → Dict.get ℕ_discrete k (group key txs)
        ≡ elim (Dict.get ℕ_discrete k key) [ none ↦ none | some b ↦ some (of_chain k txs) ]
  unfolding group Dict.get
  group-get k [] txs = refl
  group-get k ((j, b) ∷ key) txs = ground (arith, group-get k key txs)

  flatten_all-back :
      (addr : Bytes) (m : List (Bytes × TxList (Transaction Request)))
      (txs : List (Transaction Request))
      → Dict.get bytes_discrete addr (flatten_all m).0 ≡ some txs
      → (l : TxList (Transaction Request)) × (Dict.get bytes_discrete addr m ≡ some l)
        × ((TxMap.flatten tx_nonce l.txs).0 ≡ txs)
  flatten_all-back addr m txs e = ground (arith, (get-flatten_all addr m).0, e)

module _ {Request : Type 0} (requests : Requests Request) where
  -- The batches hold the whole log.
  batches-pending-In :
      (log : List (Transaction Request)) (pool : TxPool Request) (u : Transaction Request)
      → Implements requests log pool
      → In u (batches (pending pool).0) ↔ In u log
  unfolding pending
  batches-pending-In log pool u h = (
    λ i.
        let (addr, txs, e, j) =
          batches-In u (flatten_all pool.pending).0 (flatten_all-Keyed pool.pending h.keyed).0 i in
        let (l, there, same) = flatten_all-back addr pool.pending txs e in
        (((listed requests log pool addr l h there).1 u).0 (subst (In u) (sym same) j)).0,
    λ i. elim (Option-cases (Dict.get bytes_discrete (sender_address requests u) pool.pending)) [
      | inl absent ↦ absurd (unlisted requests log pool _ h absent u i refl)
      | inr (l, e) ↦
          In-batches u (flatten_all pool.pending).0 (sender_address requests u) _
            (ground (arith, (get-flatten_all (sender_address requests u) pool.pending).0, e))
            (((listed requests log pool _ l h e).1 u).1 (i, refl))
    ],
  )

  batches-pending-Distinct :
      (log : List (Transaction Request)) (pool : TxPool Request)
      → Implements requests log pool
      → Distinct (batches (pending pool).0)
  unfolding pending
  batches-pending-Distinct log pool h =
      batches-Distinct (sender_address requests) (flatten_all pool.pending).0
        (flatten_all-Keyed pool.pending h.keyed).0
        (λ addr txs e.
          let (l, there, same) = flatten_all-back addr pool.pending txs e in
          let (ascending, holds, kept, gets) = listed requests log pool addr l h there in
          (
            subst Distinct same (Ascending-Distinct _ ascending),
            λ u i. ((holds u).0 (subst (In u) (sym same) i)).1,
          ))

  -- `PendingByChainId` has an entry for a chain exactly when the log has a transaction for it, and
  -- the entry lists each of the log's transactions for that chain once, and nothing else.
  pub pending_by_chain_id_lem :
      (log : List (Transaction Request)) (pool : TxPool Request)
      → Implements requests log pool
      → (k : ℕ)
      → ((Dict.get ℕ_discrete k (pending_by_chain_id pool).0 ≡ none)
          × ((u : Transaction Request) → In u log → u.chain_id ≢ k))
        ⊎ ((txs : List (Transaction Request)) × (Dict.get ℕ_discrete k (pending_by_chain_id pool).0
              ≡ some txs)
            × ((u : Transaction Request) → In u txs ↔ (In u log × (u.chain_id ≡ k)))
            × Distinct txs
            × ((u : Transaction Request) × In u txs))
  unfolding pending_by_chain_id Dict.get
  pending_by_chain_id_lem log pool h k =
      let txs = batches (pending pool).0 in
      let all = λ (u : Transaction Request). batches-pending-In log pool u h in
      let here = group-get k (chain_keys txs []) txs in
      let keys = chain_keys-get k txs [] in
      elim (Option-cases (Dict.get ℕ_discrete k (chain_keys txs []))) [
        | inl absent ↦ inl (ground (arith, here, absent), λ u i. (keys.0 absent).1 u ((all u).1 i))
        | inr (b, e) ↦ inr (
          of_chain k txs,
          ground (arith, here, e),
          λ u. ground (arith, of_chain-In k u txs, all u),
          of_chain-Distinct k txs (batches-pending-Distinct log pool h),
          elim (In-cases (of_chain k txs)) [
            | inl empty ↦
                let gone =
                  keys.1 (refl, λ u i q. subst (In u) empty ((of_chain-In k u txs).1 (i, q))) in
                absurd (cc)
            | inr first ↦ first
          ],
        )
      ]
