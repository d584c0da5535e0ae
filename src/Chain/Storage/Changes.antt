-- ===== src/Chain/Storage/Changes.antt =====
-- What a change set of chain/storage does, and that the store is one for chain/rawdb.
use relayer.Base.{
  List, [], ◌∷◌, Bytes, bytes_discrete, Option, none, some, Bool, true, false, inl, inr, ite,
  if◌then◌else◌, or_none, Option-cases, ◌≡◌, ◌≢◌, refl, ap, ◌∙◌, arith,
}
use relayer.Base.Dict
use relayer.Chain.Rawdb.RoundTrips.{IsStore}
use relayer.Chain.Storage.{
  LevelDb, Got, got, not_found, put, delete, get, put_all, delete_all, change_in, deletes_in,
  put_change_set, level_db_store,
}

-- What goleveldb documents: what is under a key after a write, in the database and in a transaction;
-- a transaction starts with what the database has, and a committed one leaves what it has.
pub record IsLevelDb (l : LevelDb) : Type 0 where
  pub get_in : Bytes → l.Transaction → Got
  pub put :
      (j k v : Bytes) (s next : l.State)
      → l.put k v s ≡ some next
      → l.get j next ≡ ite (bytes_discrete k j) (got v) (l.get j s)
  pub delete :
      (j k : Bytes) (s next : l.State)
      → l.delete k s ≡ some next
      → l.get j next ≡ ite (bytes_discrete k j) not_found (l.get j s)
  -- whether a transaction is open, which every other write waits for
  pub is_open : l.State → Bool
  pub open_transaction :
      (j : Bytes) (s next : l.State) (tx : l.Transaction)
      → l.open_transaction s ≡ some (next, tx)
      → (get_in j tx ≡ l.get j s) × (l.get j next ≡ l.get j s) × (is_open next ≡ true)
  pub discard :
      (j : Bytes) (tx : l.Transaction) (s : l.State)
      → (l.get j (l.discard tx s) ≡ l.get j s) × (is_open (l.discard tx s) ≡ false)
  pub put_in :
      (j k v : Bytes) (tx next : l.Transaction)
      → l.put_in k v tx ≡ some next
      → get_in j next ≡ ite (bytes_discrete k j) (got v) (get_in j tx)
  pub delete_in :
      (j k : Bytes) (tx next : l.Transaction)
      → l.delete_in k tx ≡ some next
      → get_in j next ≡ ite (bytes_discrete k j) not_found (get_in j tx)
  pub committed :
      (j : Bytes) (tx : l.Transaction) (s next : l.State)
      → l.commit tx s ≡ (next, true)
      → (l.get j next ≡ get_in j tx) × (is_open next ≡ false)
  -- a transaction is not committed by a commit that fails, and can be tried again or discarded
  pub not_committed :
      (j : Bytes) (tx : l.Transaction) (s next : l.State)
      → l.commit tx s ≡ (next, false)
      → (l.get j next ≡ l.get j s) × (is_open next ≡ is_open s)

-- whether a key is among those to be deleted
unfoldable pub among : Bytes → List Bytes → Bool
among j [] = false
among j (k ∷ ks) = ite (bytes_discrete k j) true (among j ks)

-- what is under a key after some entries are put, from what was there
unfoldable pub entry_or : Option Bytes → Got → Got
entry_or none before = before
entry_or (some v) before = got v

module _ (l : LevelDb) (h : IsLevelDb l) where
  put_all_lem :
      (j : Bytes) (puts : List (Bytes × Bytes)) (tx next : l.Transaction)
      → Dict.Keyed bytes_discrete puts
      → put_all l puts tx ≡ some next
      → h.get_in j next ≡ entry_or (Dict.get bytes_discrete j puts) (h.get_in j tx)
  unfolding put_all entry_or Dict.get
  put_all_lem j [] tx next k e = ground arith
  put_all_lem j ((key, v) ∷ puts) tx next k e =
      let (mid, here, rest) = or_none (l.put_in key v tx) _ next e in
      ground (arith, put_all_lem j puts mid next k.1 rest, h.put_in j key v tx mid here, k.0)

  delete_all_lem :
      (j : Bytes) (dels : List Bytes) (tx next : l.Transaction)
      → delete_all l dels tx ≡ some next
      → h.get_in j next ≡ (if among j dels then not_found else h.get_in j tx)
  unfolding delete_all among
  delete_all_lem j [] tx next e = ground arith
  delete_all_lem j (key ∷ dels) tx next e =
      let (mid, here, rest) = or_none (l.delete_in key tx) _ next e in
      ground (arith, delete_all_lem j dels mid next rest, h.delete_in j key tx mid here)

  -- What a change set comes to: all of it, with the transaction closed; or nothing, with the
  -- transaction closed; or nothing, since the commit fails, and with the transaction open.
  pub data Comes (puts : List (Bytes × Bytes)) (dels : List Bytes) (s : l.State)
      : l.State × Bool → Type 0 where
    whole :
        (next : l.State)
        → ((j : Bytes)
            → l.get j next ≡ (
                if among j dels
                then not_found
                else entry_or (Dict.get bytes_discrete j puts) (l.get j s)))
        → h.is_open next ≡ false
        → Comes puts dels s (next, true)
    nothing :
        (next : l.State)
        → ((j : Bytes) → l.get j next ≡ l.get j s)
        → h.is_open next ≡ false
        → Comes puts dels s (next, false)
    left_open :
        (next before : l.State) (tx : l.Transaction)
        → ((j : Bytes) → l.get j next ≡ l.get j s)
        → l.commit tx before ≡ (next, false)
        → h.is_open next ≡ true
        → Comes puts dels s (next, false)

  discarded :
      (puts : List (Bytes × Bytes)) (dels : List Bytes) (s opened : l.State) (tx : l.Transaction)
      → ((j : Bytes) → l.get j opened ≡ l.get j s)
      → Comes puts dels s (l.discard tx opened, false)
  discarded puts dels s opened tx same =
      nothing (l.discard tx opened) (λ j. (h.discard j tx opened).0 ∙ same j)
        (h.discard [] tx opened).1

  commit_lem :
      (puts : List (Bytes × Bytes)) (dels : List Bytes) (s opened : l.State) (tx : l.Transaction)
      → h.is_open opened ≡ true
      → ((j : Bytes) → l.get j opened ≡ l.get j s)
      → ((j : Bytes)
          → h.get_in j tx ≡ (
              if among j dels
              then not_found
              else entry_or (Dict.get bytes_discrete j puts) (l.get j s)))
      → (r : l.State × Bool) → l.commit tx opened ≡ r
      → Comes puts dels s r
  commit_lem puts dels s opened tx on same had (next, true) e =
      whole next (λ j. (h.committed j tx opened next e).0 ∙ had j)
        (h.committed [] tx opened next e).1
  commit_lem puts dels s opened tx on same had (next, false) e =
      left_open next opened tx (λ j. (h.not_committed j tx opened next e).0 ∙ same j) e
        ((h.not_committed [] tx opened next e).1 ∙ on)

  change_in_lem :
      (puts : List (Bytes × Bytes)) (dels : List Bytes) (s opened : l.State) (tx : l.Transaction)
      → Dict.Keyed bytes_discrete puts
      → ((j : Bytes)
          → (h.get_in j tx ≡ l.get j s) × (l.get j opened ≡ l.get j s) × (h.is_open opened ≡ true))
      → Comes puts dels s (change_in l puts dels tx opened)
  unfolding change_in deletes_in
  change_in_lem puts dels s opened tx k at =
      let same = λ (j : Bytes). (at j).1 in
      elim (Option-cases (put_all l puts tx)) [
        | inl e ↦ rw (change_in, e) (discarded puts dels s opened tx same)
        | inr (mid, e) ↦ elim (Option-cases (delete_all l dels mid)) [
          | inl f ↦ rw (change_in, e) (rw (deletes_in, f) (discarded puts dels s opened tx same))
          | inr (done, f) ↦
              rw (change_in, e)
                (rw (deletes_in, f)
                  (commit_lem puts dels s opened done (at []).2 same
                    (λ j.
                      delete_all_lem j dels mid done f
                      ∙ ap (λ g. if among j dels then not_found else g)
                          (put_all_lem j puts tx mid k e
                            ∙ ap (entry_or (Dict.get bytes_discrete j puts)) (at j).0))
                    _ refl))
        ]
      ]

  -- `PutChangeSet` on a database with no open transaction, where no key stands twice in the map of
  -- what is put, makes the change set whole or not at all. If it returns no error, every key that
  -- is to be deleted is not found, also one that is put, every other one that is put has its value,
  -- the rest is as before, and no transaction is open. If it returns an error, every key reads as
  -- before, and a transaction is left open only if a commit failed.
  pub put_change_set_lem :
      (puts : List (Bytes × Bytes)) (dels : List Bytes) (s : l.State)
      → Dict.Keyed bytes_discrete puts
      → h.is_open s ≡ false
      → Comes puts dels s (put_change_set l puts dels s)
  unfolding put_change_set
  put_change_set_lem puts dels s k closed = elim (Option-cases (l.open_transaction s)) [
    | inl e ↦ rw (put_change_set, e) (nothing s (λ j. refl) closed)
    | inr ((opened, tx), e) ↦
        rw (put_change_set, e)
          (change_in_lem puts dels s opened tx k (λ j. h.open_transaction j s opened tx e))
  ]

  -- While its writes succeed, the store is one for chain/rawdb.
  pub level_db_store-IsStore :
      ((k v : Bytes) (s : l.State) → l.put k v s ≢ none)
      → ((k : Bytes) (s : l.State) → l.delete k s ≢ none)
      → IsStore (level_db_store l)
  unfolding level_db_store put delete get
  level_db_store-IsStore puts deletes = record {
    get-put = λ k v s. elim (Option-cases (l.put k v s)) [
      | inl e ↦ absurd (puts k v s e)
      | inr (next, e) ↦ ground (arith, e, h.put k k v s next e)
    ];
    get-put_other = λ j k v s n. elim (Option-cases (l.put k v s)) [
      | inl e ↦ absurd (puts k v s e)
      | inr (next, e) ↦ ground (arith, e, n, h.put j k v s next e)
    ];
    get-delete = λ k s. elim (Option-cases (l.delete k s)) [
      | inl e ↦ absurd (deletes k s e)
      | inr (next, e) ↦ ground (arith, e, h.delete k k s next e)
    ];
    get-delete_other = λ j k s n. elim (Option-cases (l.delete k s)) [
      | inl e ↦ absurd (deletes k s e)
      | inr (next, e) ↦ ground (arith, e, n, h.delete j k s next e)
    ];
  }
