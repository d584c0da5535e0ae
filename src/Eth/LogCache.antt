-- ===== src/Eth/LogCache.antt =====
-- extChains/eth/log_cache.go: which logs a contract's watcher has already processed. Both methods
-- run under the cache's mutex. A log is what the cache and its caller read of `types.Log`; block
-- numbers are uint64 and are only compared. `Hex` of go-ethereum's `common.Hash` is a parameter.
-- The inner map, a Go set, is the list of the hashes put into it.
pub mod Seen
pub mod History
use relayer.Base.{
  ℕ, ite, List, [], ◌∷◌, Option, none, some, Bool, true, false, ℕ_discrete, leb, ltb, if◌then◌else◌,
}
use relayer.Base.Dict

pub record Log (Hash : Type 0) : Type 0 where
  pub block_number : ℕ
  pub tx_hash : Hash
  -- the position of the log in its block
  pub index : ℕ

pub record LogCache (Key : Type 0) : Type 0 where
  pub block_number : ℕ
  pub entries : List (ℕ × List Key)

unfoldable pub new_log_cache : {Key : Type 0} → LogCache Key
new_log_cache = record { block_number = 0; entries = [] }

-- the loop of `cleanup` over the map
unfoldable pub drop_below : {Key : Type 0} → ℕ → List (ℕ × List Key) → List (ℕ × List Key)
drop_below n [] = []
drop_below n ((u, txs) ∷ entries) =
    if ltb u n then drop_below n entries else (u, txs) ∷ drop_below n entries

unfoldable pub cleanup : {Key : Type 0} → LogCache Key → LogCache Key
cleanup l = record l { entries = drop_below l.block_number l.entries }

-- `_, txExists = txMap[k]`
unfoldable pub contains : {Key : Type 0} → Discrete Key → Key → List Key → Bool
contains dec k [] = false
contains dec k (j ∷ js) = ite (dec j k) true (contains dec k js)

module _ {Hash Key : Type 0} (dec : Discrete Key) (hex : Hash → Key) where
  unfoldable pub add_tx_exists : ℕ → Hash → LogCache Key → LogCache Key × Bool
  add_tx_exists block tx l = elim (Dict.get ℕ_discrete block l.entries) [
    | some tx_map ↦
        if contains dec (hex tx) tx_map
        then (l, true)
        else (record l { entries = Dict.put ℕ_discrete block (hex tx ∷ tx_map) l.entries }, false)
    | none ↦ (record l { entries = Dict.put ℕ_discrete block (hex tx ∷ []) l.entries }, false)
  ]

  -- `Exists`
  unfoldable pub exists : Log Hash → LogCache Key → LogCache Key × Bool
  exists log l =
      if leb l.block_number log.block_number
      then add_tx_exists log.block_number log.tx_hash
          (cleanup (record l { block_number = log.block_number }))
      else add_tx_exists log.block_number log.tx_hash l
