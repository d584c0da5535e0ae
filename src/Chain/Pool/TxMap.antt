-- ===== src/Chain/Pool/TxMap.antt =====
-- txSortedMap of chain/tx_list.go: the transactions of one account by nonce, a Go map with a heap of
-- its keys and a cache of its sorted values. A transaction is anything that has a nonce, a number
-- of 64 bits. `sort.Sort` is the insertion sort; the nonces of a map's values differ.
pub mod Sorted
pub mod Invariant
pub mod Ready
use relayer.Base.{
  ℕ, zero, suc, ◌+◌, ◌%◌, ◌^◌, List, [], ◌∷◌, Option, none, some, Bool, true, false, ltb, ◌==◌,
  ◌||◌, ◌&&◌, not, if◌then◌else◌, length, ℕ_discrete,
}
use relayer.Base.Dict
use relayer.Chain.Pool.Heap.{slot, heap_push, heap_pop}

pub record TxSortedMap (Tx : Type 0) : Type 0 where
  pub items : List (ℕ × Tx)
  pub index : List ℕ
  -- none for nil
  pub cache : Option (List Tx)

unfoldable pub new_tx_sorted_map : {Tx : Type 0} → TxSortedMap Tx
new_tx_sorted_map = record { items = []; index = []; cache = none }

module _ {Tx : Type 0} where
  -- `Get`; none is the nil interface
  unfoldable pub get : ℕ → TxSortedMap Tx → Option Tx
  get nonce m = Dict.get ℕ_discrete nonce m.items

  unfoldable pub map_len : TxSortedMap Tx → ℕ
  map_len m = length m.items

  -- The loop of `Ready`, on fuel: every round takes an entry off the index. What is not among the
  -- items is appended as nil.
  unfoldable pub ready_loop :
      ℕ → ℕ → List (ℕ × Tx) → List ℕ → List (Option Tx) × List (ℕ × Tx) × List ℕ
  ready_loop zero next items index = ([], items, index)
  ready_loop (suc fuel) next items index =
      let rest =
        ready_loop fuel ((next + 1) % 2 ^ 64) (Dict.delete ℕ_discrete next items)
          (heap_pop index).1 in
      if not (length index == 0) && (slot index 0 == next)
      then (Dict.get ℕ_discrete next items ∷ rest.0, rest.1, rest.2)
      else ([], items, index)

  unfoldable pub ready : ℕ → TxSortedMap Tx → List (Option Tx) × TxSortedMap Tx
  ready start m =
      if (length m.index == 0) || ltb start (slot m.index 0)
      then ([], m)
      else let r = ready_loop (length m.index) (slot m.index 0) m.items m.index in
        (r.0, record { items = r.1; index = r.2; cache = none })

  -- the values of the map
  unfoldable pub values : List (ℕ × Tx) → List Tx
  values [] = []
  values ((n, tx) ∷ items) = tx ∷ values items

module _ {Tx : Type 0} (nonce : Tx → ℕ) where
  unfoldable pub put : Tx → TxSortedMap Tx → TxSortedMap Tx
  put tx m = record {
    items = Dict.put ℕ_discrete (nonce tx) tx m.items;
    index = elim (Dict.get ℕ_discrete (nonce tx) m.items) [
      | none ↦ heap_push (nonce tx) m.index
      | some old ↦ m.index
    ];
    cache = none;
  }

  -- `sort.Sort` with `PoolTxByNonce`
  unfoldable pub insert_by_nonce : Tx → List Tx → List Tx
  insert_by_nonce tx [] = tx ∷ []
  insert_by_nonce tx (t ∷ ts) =
      let rest = insert_by_nonce tx ts in if ltb (nonce t) (nonce tx) then t ∷ rest else tx ∷ t ∷ ts

  unfoldable pub sort_by_nonce : List Tx → List Tx
  sort_by_nonce [] = []
  sort_by_nonce (t ∷ ts) = insert_by_nonce t (sort_by_nonce ts)

  unfoldable pub flatten : TxSortedMap Tx → List Tx × TxSortedMap Tx
  flatten m = elim m.cache [
    | some txs ↦ (txs, m)
    | none ↦ let txs = sort_by_nonce (values m.items) in (txs, record m { cache = some txs })
  ]
