-- ===== src/Eth/LogCache/History.antt =====
-- extChains/eth/log_cache.go over a stream of logs.
use relayer.Base.{
  ℕ, ◌≤◌, ◌<◌, List, [], ◌∷◌, Bool, true, false, ◌≡◌, refl, ◌∙◌, ◌||◌, arith, ap₂, subst,
}
use relayer.Base.Dict
use relayer.Eth.LogCache.{Log, LogCache, new_log_cache, exists}
use relayer.Eth.LogCache.Seen.{seen, names, exists_lem, block_number-exists}

module _ {Hash Key : Type 0} (dec : Discrete Key) (hex : Hash → Key) where
  -- What a watcher's stream of logs is answered: `true` for a log that it skips.
  unfoldable pub exists_each : List (Log Hash) → LogCache Key → List Bool
  exists_each [] l = []
  exists_each (log ∷ logs) l =
      let (l', answer) = exists dec hex log l in answer ∷ exists_each logs l'

  -- Some log of the list has this block and this transaction.
  unfoldable pub occurs : List (Log Hash) → ℕ → Key → Bool
  occurs [] b k = false
  occurs (log ∷ logs) b k = names dec hex log b k || occurs logs b k

  -- For each log, whether one before it has the same block and the same transaction.
  unfoldable pub repeats : List (Log Hash) → List (Log Hash) → List Bool
  repeats before [] = []
  repeats before (log ∷ logs) =
      occurs before log.block_number (hex log.tx_hash) ∷ repeats (log ∷ before) logs

  -- The block numbers do not fall, and start from `n`.
  abbrev pub Ascending : ℕ → List (Log Hash) → Type 0
  Ascending n [] = Unit {0}
  Ascending n (log ∷ logs) = (n ≤ log.block_number) × Ascending log.block_number logs

  -- From the cache's block on, it records exactly the logs that came before.
  abbrev Records : List (Log Hash) → LogCache Key → Type 0
  Records before l = (c : ℕ) (k : Key) → l.block_number ≤ c → seen dec c k l ≡ occurs before c k

  exists-Records :
      (before : List (Log Hash)) (log : Log Hash) (l : LogCache Key)
      → l.block_number ≤ log.block_number
      → Records before l
      → Records (log ∷ before) (exists dec hex log l).0
  unfolding occurs
  exists-Records before log l h r c k le =
      ground (arith, (exists_lem dec hex log l).1 c k, block_number-exists dec hex log l, r c k)

  exists_each-Records :
      (logs before : List (Log Hash)) (l : LogCache Key)
      → Ascending l.block_number logs
      → Records before l
      → exists_each logs l ≡ repeats before logs
  unfolding exists_each repeats
  exists_each-Records [] before l a r = refl
  exists_each-Records (log ∷ logs) before l a r =
      let e = block_number-exists dec hex log l in
      ap₂ ◌∷◌ ((exists_lem dec hex log l).0 ∙ r log.block_number (hex log.tx_hash) a.0) (
        exists_each-Records logs (log ∷ before) (exists dec hex log l).0
          (subst (λ n. Ascending n logs) (ground arith) a.1) (exists-Records before log l a.0 r))

  -- On a new cache and a stream whose block numbers do not fall, `Exists` answers `true` for a
  -- log exactly if an earlier log of the stream has the same block and the same transaction.
  pub exists_each-eq-repeats :
      (logs : List (Log Hash)) → Ascending 0 logs → exists_each logs new_log_cache ≡ repeats [] logs
  unfolding new_log_cache seen occurs Dict.get
  exists_each-eq-repeats logs a = exists_each-Records logs [] new_log_cache a (λ c k _. refl)

  -- Two logs of one transaction are told apart by nothing that the cache reads: after a first
  -- log was taken, a second one of the same block and transaction is skipped, whatever its index
  -- in the block.
  pub exists_same_tx :
      (first second : Log Hash) (l : LogCache Key)
      → second.block_number ≡ first.block_number
      → hex second.tx_hash ≡ hex first.tx_hash
      → (exists dec hex second (exists dec hex first l).0).1 ≡ true
  exists_same_tx first second l b k = ground (
    arith,
    (exists_lem dec hex second (exists dec hex first l).0).0,
    (exists_lem dec hex first l).1 second.block_number (hex second.tx_hash),
  )

  -- A log that comes again after a log of a later block is not recognised: between the two, the
  -- later block made the cache forget it. The cache's own block is not after that one.
  pub exists_forgets :
      (log newer : Log Hash) (l : LogCache Key)
      → log.block_number < newer.block_number
      → l.block_number ≤ newer.block_number
      → (exists dec hex log (exists dec hex newer (exists dec hex log l).0).0).1 ≡ false
  exists_forgets log newer l older current = ground (
    arith,
    (exists_lem dec hex log (exists dec hex newer (exists dec hex log l).0).0).0,
    (exists_lem dec hex newer (exists dec hex log l).0).1 log.block_number (hex log.tx_hash),
    block_number-exists dec hex log l,
  )
