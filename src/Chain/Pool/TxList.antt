-- ===== src/Chain/Pool/TxList.antt =====
-- txList of chain/tx_list.go: a sorted map with a flag that nothing reads.
use relayer.Base.{ℕ, ◌==◌, Bool, Option, List}
use relayer.Chain.Pool.TxMap
use relayer.Chain.Pool.TxMap.{TxSortedMap, new_tx_sorted_map}

pub record TxList (Tx : Type 0) : Type 0 where
  pub strict : Bool
  pub txs : TxSortedMap Tx
  pub last_stk_check : ℕ

module _ {Tx : Type 0} where
  unfoldable pub new_tx_list : Bool → TxList Tx
  new_tx_list strict = record { strict = strict; txs = new_tx_sorted_map; last_stk_check = 0 }

  unfoldable pub ready : ℕ → TxList Tx → List (Option Tx) × TxList Tx
  ready start l = let r = TxMap.ready start l.txs in (r.0, record l { txs = r.1 })

  unfoldable pub list_len : TxList Tx → ℕ
  list_len l = TxMap.map_len l.txs

  unfoldable pub empty : TxList Tx → Bool
  empty l = list_len l == 0

module _ {Tx : Type 0} (nonce : Tx → ℕ) where
  -- An older transaction with the nonce is only logged, so the error is always nil.
  unfoldable pub add : Tx → TxList Tx → TxList Tx
  add tx l = record l { txs = TxMap.put nonce tx l.txs }

  unfoldable pub flatten : TxList Tx → List Tx × TxList Tx
  flatten l = let r = TxMap.flatten nonce l.txs in (r.0, record l { txs = r.1 })
