-- ===== src/Eth/LogCache/Seen.antt =====
-- What extChains/eth/log_cache.go remembers.
use relayer.Base.{
  ℕ, ite, List, [], ◌∷◌, none, some, Bool, true, false, ℕ_discrete, leb, ltb, if◌then◌else◌, ◌≡◌,
  refl, ◌&&◌, arith, Option-cases, inl, inr,
}
use relayer.Base.Dict
use relayer.Eth.LogCache.{Log, LogCache, drop_below, cleanup, contains, add_tx_exists, exists}

get-drop_below :
    {Key : Type 0} (b n : ℕ) (m : List (ℕ × List Key))
    → Dict.get ℕ_discrete b (drop_below n m) ≡ (if ltb b n then none else Dict.get ℕ_discrete b m)
unfolding drop_below Dict.get
get-drop_below b n [] = ground arith
get-drop_below b n ((u, txs) ∷ m) = ground (arith, get-drop_below b n m)

-- The hash `k` is recorded for block `b`.
unfoldable pub seen : {Key : Type 0} → Discrete Key → ℕ → Key → LogCache Key → Bool
seen dec b k l = elim (Dict.get ℕ_discrete b l.entries) [
  | some txs ↦ contains dec k txs
  | none ↦ false
]

module _ {Hash Key : Type 0} (dec : Discrete Key) (hex : Hash → Key) where
  -- The log is of block `b`, with the hash `k`.
  abbrev pub names : Log Hash → ℕ → Key → Bool
  names log b k =
      ite (ℕ_discrete log.block_number b) (ite (dec (hex log.tx_hash) k) true false) false

  add_tx_exists-eq-seen :
      (b : ℕ) (tx : Hash) (l : LogCache Key)
      → (add_tx_exists dec hex b tx l).1 ≡ seen dec b (hex tx) l
  unfolding add_tx_exists seen
  add_tx_exists-eq-seen b tx l = ground arith

  block_number-add_tx_exists :
      (b : ℕ) (tx : Hash) (l : LogCache Key)
      → (add_tx_exists dec hex b tx l).0.block_number ≡ l.block_number
  unfolding add_tx_exists
  block_number-add_tx_exists b tx l = ground arith

  seen-add_tx_exists :
      (c b : ℕ) (k : Key) (tx : Hash) (l : LogCache Key)
      → seen dec c k (add_tx_exists dec hex b tx l).0 ≡ (
          if ite (ℕ_discrete b c) (ite (dec (hex tx) k) true false) false
          then true
          else seen dec c k l)
  unfolding add_tx_exists seen contains
  seen-add_tx_exists c b k tx l = elim (Option-cases (Dict.get ℕ_discrete b l.entries)) [
    | inl e ↦ ground (arith, Dict.get-put ℕ_discrete c b (hex tx ∷ []) l.entries)
    | inr (txs, e) ↦ ground (arith, Dict.get-put ℕ_discrete c b (hex tx ∷ txs) l.entries)
  ]

  -- A block above the cache's moves it there.
  pub block_number-exists :
      (log : Log Hash) (l : LogCache Key)
      → (exists dec hex log l).0.block_number
        ≡ (if leb l.block_number log.block_number then log.block_number else l.block_number)
  unfolding exists cleanup
  block_number-exists log l = ground (
    arith,
    block_number-add_tx_exists log.block_number log.tx_hash l,
    block_number-add_tx_exists log.block_number log.tx_hash
        (cleanup (record l { block_number = log.block_number })),
  )

  seen-cleanup :
      (c : ℕ) (k : Key) (l : LogCache Key)
      → seen dec c k (cleanup l) ≡ (if ltb c l.block_number then false else seen dec c k l)
  unfolding seen cleanup
  seen-cleanup c k l = ground (arith, get-drop_below c l.block_number l.entries)

  seen-with_block :
      (c n : ℕ) (k : Key) (l : LogCache Key)
      → seen dec c k (record l { block_number = n }) ≡ seen dec c k l
  unfolding seen
  seen-with_block c n k l = refl

  -- `Exists` answers whether the log's transaction was recorded for its block before the call,
  -- on both branches. After it the log is recorded; if the log's block is not below the cache's,
  -- what was recorded for lower blocks is forgotten; all else stays recorded as it was.
  pub exists_lem :
      (log : Log Hash) (l : LogCache Key)
      → ((exists dec hex log l).1 ≡ seen dec log.block_number (hex log.tx_hash) l)
        × ((c : ℕ) (k : Key)
            → seen dec c k (exists dec hex log l).0 ≡ (
                if names log c k
                then true
                else if leb l.block_number log.block_number && ltb c log.block_number
                then false
                else seen dec c k l))
  unfolding exists
  exists_lem log l =
      let b = log.block_number in
      let moved = record l { block_number = b } in
      (
        ground (
          arith,
          add_tx_exists-eq-seen b log.tx_hash l,
          add_tx_exists-eq-seen b log.tx_hash (cleanup moved),
          seen-cleanup b (hex log.tx_hash) moved,
          seen-with_block b b (hex log.tx_hash) l,
        ),
        λ c k. ground (
          arith,
          seen-add_tx_exists c b k log.tx_hash l,
          seen-add_tx_exists c b k log.tx_hash (cleanup moved),
          seen-cleanup c k moved,
          seen-with_block c b k l,
        ),
      )
