-- ===== src/Chain/Pool/TxMap/Invariant.antt =====
-- The invariant of txSortedMap (chain/tx_list.go) and that `Put` and `Flatten` keep it.
use relayer.Base.{
  ℕ, ◌^◌, ◌<◌, List, Option, none, some, ◌≡◌, refl, sym, ap, arith, In, ◌↔◌, inl, inr, subst,
  Option-cases, ℕ_discrete,
}
use relayer.Base.Dict
use relayer.Chain.Pool.Heap.{heap_push}
use relayer.Chain.Pool.Heap.Slots.{count}
use relayer.Chain.Pool.Heap.Order.{IsHeap}
use relayer.Chain.Pool.Heap.Sift.{heap_push_lem}
use relayer.Chain.Pool.TxMap.{
  TxSortedMap, new_tx_sorted_map, get, put, values, sort_by_nonce, flatten,
}
use relayer.Chain.Pool.TxMap.Sorted.{
  OwnNonce, Ascending, values-In, values-Apart, sort_by_nonce-In, sort_by_nonce-Ascending,
}

module _ {Tx : Type 0} where
  abbrev pub found : Option Tx → ℕ
  found none = 0
  found (some tx) = 1

  -- The index is a heap of the keys of the items, each once, and they fit 64 bits.
  pub record Indexed (items : List (ℕ × Tx)) (index : List ℕ) : Type 0 where
    pub keyed : Dict.Keyed ℕ_discrete items
    pub ordered : IsHeap index
    pub counted : (n : ℕ) → count n index ≡ found (Dict.get ℕ_discrete n items)
    pub fits : (n : ℕ) (tx : Tx) → Dict.get ℕ_discrete n items ≡ some tx → n < 2 ^ 64

module _ {Tx : Type 0} (nonce : Tx → ℕ) where
  pub record IsTxMap (m : TxSortedMap Tx) : Type 0 where
    pub indexed : Indexed m.items m.index
    pub own : OwnNonce nonce m.items
    pub cached : (txs : List Tx) → m.cache ≡ some txs → txs ≡ sort_by_nonce nonce (values m.items)

  pub new-IsTxMap : IsTxMap new_tx_sorted_map
  unfolding new_tx_sorted_map Dict.get count
  new-IsTxMap = record {
    indexed = record {
      keyed = tt;
      ordered = λ k p q. absurd (omega arith);
      counted = λ n. refl;
      fits = λ n tx e. cc;
    };
    own = λ n tx e. cc;
    cached = λ txs e. cc;
  }

  put-Indexed :
      (tx : Tx) (items : List (ℕ × Tx)) (index : List ℕ)
      → nonce tx < 2 ^ 64
      → Indexed items index
      → Indexed
          (Dict.put ℕ_discrete (nonce tx) tx items)
          (elim (Dict.get ℕ_discrete (nonce tx) items) [
            | none ↦ heap_push (nonce tx) index
            | some old ↦ index
          ])
  put-Indexed tx items index small h =
      let keyed = Dict.put-Keyed ℕ_discrete (nonce tx) tx items h.keyed in
      let fits : (n : ℕ) (u : Tx)
          → Dict.get ℕ_discrete n (Dict.put ℕ_discrete (nonce tx) tx items) ≡ some u
          → n < 2 ^ 64 =
        λ n u e. ground (arith, h.fits n u, Dict.get-put ℕ_discrete n (nonce tx) tx items) in
      elim (Option-cases (Dict.get ℕ_discrete (nonce tx) items)) [
        | inl fresh ↦
            let (o, size, c) = heap_push_lem (nonce tx) index h.ordered in
            rw fresh (record {
              keyed = keyed;
              ordered = o;
              counted = λ n.
                  ground
                    (arith, c n, h.counted n, fresh, Dict.get-put ℕ_discrete n (nonce tx) tx items);
              fits = fits;
            })
        | inr (old, e) ↦ rw e (record {
          keyed = keyed;
          ordered = h.ordered;
          counted =
              λ n. ground (arith, h.counted n, e, Dict.get-put ℕ_discrete n (nonce tx) tx items);
          fits = fits;
        })
      ]

  pub put-IsTxMap :
      (tx : Tx) (m : TxSortedMap Tx) → nonce tx < 2 ^ 64 → IsTxMap m → IsTxMap (put nonce tx m)
  unfolding put
  put-IsTxMap tx m small h = record {
    indexed = put-Indexed tx m.items m.index small h.indexed;
    own = λ n u e. ground (arith, h.own n u, Dict.get-put ℕ_discrete n (nonce tx) tx m.items);
    cached = λ txs e. cc;
  }

  flatten_cached :
      (m : TxSortedMap Tx) (txs : List Tx) → m.cache ≡ some txs → flatten nonce m ≡ (txs, m)
  unfolding flatten
  flatten_cached m txs e = ground (arith, e)

  flatten_fresh :
      (m : TxSortedMap Tx)
      → m.cache ≡ none
      → flatten nonce m ≡ (
        sort_by_nonce nonce (values m.items),
        record m { cache = some (sort_by_nonce nonce (values m.items)) },
      )
  unfolding flatten
  flatten_fresh m e = ground (arith, e)

  pub flatten-eq :
      (m : TxSortedMap Tx)
      → IsTxMap m
      → ((flatten nonce m).0 ≡ sort_by_nonce nonce (values m.items))
        × IsTxMap (flatten nonce m).1
        × ((flatten nonce m).1.items ≡ m.items)
  flatten-eq m h = elim (Option-cases m.cache) [
    | inl fresh ↦
        rw (flatten_fresh m fresh)
          (refl, record { indexed = h.indexed; own = h.own; cached = λ txs e. cc }, refl)
    | inr (txs, e) ↦ rw (flatten_cached m txs e) (h.cached txs e, h, refl)
  ]

  -- `Flatten` lists exactly the transactions of the map, by ascending nonces, whether they were
  -- cached or not; it keeps the invariant and the map's contents.
  pub flatten_lem :
      (m : TxSortedMap Tx)
      → IsTxMap m
      → Ascending nonce (flatten nonce m).0
        × ((u : Tx) → In u (flatten nonce m).0 ↔ (get (nonce u) m ≡ some u))
        × IsTxMap (flatten nonce m).1
        × ((n : ℕ) → get n (flatten nonce m).1 ≡ get n m)
  unfolding get
  flatten_lem m h =
      let (e, kept, same) = flatten-eq m h in
      let apart = values-Apart nonce m.items h.indexed.keyed h.own in
      (
        subst (Ascending nonce) (sym e) (sort_by_nonce-Ascending nonce (values m.items) apart),
        λ u. ground (
          arith,
          e,
          sort_by_nonce-In nonce u (values m.items),
          values-In nonce u m.items h.indexed.keyed h.own,
        ),
        kept,
        λ n. ap (Dict.get ℕ_discrete n) same,
      )
