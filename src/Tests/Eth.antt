-- ===== src/Tests/Eth.antt =====
-- extChains/eth/log_cache.go at small inputs; a hash is a number, and is its own text.
use relayer.Base.{ℕ, List, [], ◌∷◌, true, false, ℕ_discrete, ◌≡◌, refl, arith}
use relayer.Base.Dict
use relayer.Eth.LogCache.{
  Log, LogCache, new_log_cache, drop_below, cleanup, contains, add_tx_exists, exists,
}
use relayer.Eth.LogCache.History.{exists_each, repeats, exists_each-eq-repeats, exists_forgets}

program : Unit {0}
unfolding new_log_cache drop_below cleanup contains add_tx_exists exists exists_each Dict.get
    Dict.put Dict.delete ℕ_discrete
program = tt

abbrev hex : ℕ → ℕ
hex h = h

abbrev log_at : ℕ → ℕ → ℕ → Log ℕ
log_at block tx index = record { block_number = block; tx_hash = tx; index = index }

abbrev stream : List (Log ℕ)
stream = log_at 5 1 0 ∷ log_at 5 2 1 ∷ log_at 5 1 0 ∷ log_at 6 1 0 ∷ log_at 6 1 0 ∷ []

answers : exists_each ℕ_discrete hex stream new_log_cache ≡ false ∷ false ∷ true ∷ false ∷ true ∷ []
unfolding program
answers = refl

-- The second request of one transaction is lost.
loses_second :
    exists_each ℕ_discrete hex (log_at 5 1 0 ∷ log_at 5 1 1 ∷ []) new_log_cache ≡ false ∷ true ∷ []
unfolding program
loses_second = refl

abbrev cache : LogCache ℕ
cache = record { block_number = 5; entries = (5, 1 ∷ []) ∷ [] }

exists_each-eq-repeats_example :
    exists_each ℕ_discrete hex stream new_log_cache ≡ repeats ℕ_discrete hex [] stream
exists_each-eq-repeats_example = exists_each-eq-repeats ℕ_discrete hex stream (omega arith)

exists_forgets_example :
    (exists ℕ_discrete hex
      (log_at 5 1 0)
      (exists ℕ_discrete hex (log_at 6 2 0) (exists ℕ_discrete hex (log_at 5 1 0) cache).0).0).1
    ≡ false
exists_forgets_example =
    exists_forgets ℕ_discrete hex (log_at 5 1 0) (log_at 6 2 0) cache (omega arith) (omega arith)
