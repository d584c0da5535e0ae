-- ===== src/Chain/Storage.antt =====
-- chain/storage: the store over goleveldb, which is a parameter: its database, and its transactions,
-- which see their own writes and are open until they are committed or discarded.
pub mod Changes
use relayer.Base.{
  ℕ, zero, suc, ◌%◌, ◌/◌, ◌^◌, List, [], ◌∷◌, Bytes, Option, none, some, Bool, true, false,
}
use relayer.Chain.Rawdb.Accessors.{Database}

-- what `Get` of goleveldb gives: a value, `ErrNotFound`, or another error
pub data Got : Type 0 where
  got : Bytes → Got
  not_found broken : Got

-- none for an error
pub record LevelDb : Type 1 where
  pub State : Type 0
  pub Transaction : Type 0
  pub get : Bytes → State → Got
  pub put : Bytes → Bytes → State → Option State
  pub delete : Bytes → State → Option State
  pub open_transaction : State → Option (State × Transaction)
  pub put_in : Bytes → Bytes → Transaction → Option Transaction
  pub delete_in : Bytes → Transaction → Option Transaction
  -- with whether the error is nil
  pub commit : Transaction → State → State × Bool
  pub discard : Transaction → State → State

-- the errors of `Get` of the store
pub data StoreError : Type 0 where
  key_not_found other_error : StoreError

unfoldable pub append_prefix : ℕ → Bytes → Bytes
append_prefix k b = k ∷ b

-- `PutUint32` of package binary, in little endian
unfoldable pub little_endian : ℕ → ℕ → Bytes
little_endian zero n = []
little_endian (suc w) n = n % 256 ∷ little_endian w (n / 256)

unfoldable pub append_prefix_int : ℕ → ℕ → Bytes
append_prefix_int k n = append_prefix k (little_endian 4 (n % 2 ^ 32))

abbrev pub is_nil : Option StoreError → Bool
is_nil none = true
is_nil (some e) = false

module _ (l : LevelDb) where
  -- the value and the error, none for nil
  unfoldable pub get : Bytes → l.State → Bytes × Option StoreError
  get key s = elim (l.get key s) [
    | got value ↦ (value, none)
    | not_found ↦ ([], some key_not_found)
    | broken ↦ ([], some other_error)
  ]

  -- with whether the error is nil, as the other writes
  unfoldable pub put : Bytes → Bytes → l.State → l.State × Bool
  put key value s = elim (l.put key value s) [ none ↦ (s, false) | some next ↦ (next, true) ]

  unfoldable pub delete : Bytes → l.State → l.State × Bool
  delete key s = elim (l.delete key s) [ none ↦ (s, false) | some next ↦ (next, true) ]

  -- it is always there
  unfoldable pub has : Bytes → l.State → Bool × Bool
  has value s = (true, true)

  -- the two loops of `PutChangeSet`, over the entries of its maps
  unfoldable pub put_all : List (Bytes × Bytes) → l.Transaction → Option l.Transaction
  put_all [] tx = some tx
  put_all ((k, v) ∷ puts) tx = elim (l.put_in k v tx) [
    | none ↦ none
    | some next ↦ put_all puts next
  ]

  unfoldable pub delete_all : List Bytes → l.Transaction → Option l.Transaction
  delete_all [] tx = some tx
  delete_all (k ∷ dels) tx = elim (l.delete_in k tx) [
    | none ↦ none
    | some next ↦ delete_all dels next
  ]

  -- with what is discarded on an error
  unfoldable pub deletes_in : List Bytes → l.Transaction → l.State → l.Transaction → l.State × Bool
  deletes_in dels tx s put = elim (delete_all dels put) [
    | none ↦ (l.discard tx s, false)
    | some done ↦ l.commit done s
  ]

  unfoldable pub change_in :
      List (Bytes × Bytes) → List Bytes → l.Transaction → l.State → l.State × Bool
  change_in puts dels tx s = elim (put_all puts tx) [
    | none ↦ (l.discard tx s, false)
    | some put ↦ deletes_in dels tx s put
  ]

  unfoldable pub put_change_set : List (Bytes × Bytes) → List Bytes → l.State → l.State × Bool
  put_change_set puts dels s = elim (l.open_transaction s) [
    | none ↦ (s, false)
    | some opened ↦ change_in puts dels opened.1 opened.0
  ]

  -- the store, as what chain/rawdb reads and writes
  unfoldable pub level_db_store : Database
  level_db_store = record {
    State = l.State;
    has = has;
    get = λ k s. ((get k s).0, is_nil (get k s).1);
    put = put;
    delete = delete;
  }
