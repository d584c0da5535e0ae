-- ===== src/Tests/Storage.antt =====
-- chain/storage over a map.
use relayer.Base.{
  ℕ_discrete, List, [], ◌∷◌, Bytes, bytes_discrete, Bool, none, ite, some, true, false, ◌≡◌, refl,
  arith, if◌then◌else◌,
}
use relayer.Base.Dict
use relayer.Chain.Storage.{
  LevelDb, Got, got, not_found, append_prefix, append_prefix_int, little_endian, put_all,
  delete_all, change_in, deletes_in, put_change_set, level_db_store,
}
use relayer.Chain.Storage.Changes.{
  IsLevelDb, Comes, entry_or, put_change_set_lem, level_db_store-IsStore,
}
use relayer.Chain.Rawdb.RoundTrips.{IsStore}

abbrev under : Bytes → List (Bytes × Bytes) → Got
under k m = entry_or (Dict.get bytes_discrete k m) not_found

-- A transaction is a copy of the map, and a database has whether one is open. A commit fails if the
-- key 9 has an entry, and a transaction takes no entry under the empty key.
abbrev map_db : LevelDb
map_db = record {
  State = List (Bytes × Bytes) × Bool;
  Transaction = List (Bytes × Bytes);
  get = λ k s. under k s.0;
  put = λ k v s. some (Dict.put bytes_discrete k v s.0, s.1);
  delete = λ k s. some (Dict.delete bytes_discrete k s.0, s.1);
  open_transaction = λ s. if s.1 then none else some ((s.0, true), s.0);
  put_in = λ k v m. elim k [ [] ↦ none | b ∷ bs ↦ some (Dict.put bytes_discrete (b ∷ bs) v m) ];
  delete_in = λ k m. some (Dict.delete bytes_discrete k m);
  commit = λ tx s. elim (Dict.get bytes_discrete (9 ∷ []) tx) [
    | none ↦ ((tx, false), true)
    | some v ↦ (s, false)
  ];
  discard = λ tx s. (s.0, false);
}

puts_in :
    (j k v : Bytes) (tx next : List (Bytes × Bytes))
    → map_db.put_in k v tx ≡ some next
    → under j next ≡ ite (bytes_discrete k j) (got v) (under j tx)
unfolding entry_or
puts_in j [] v tx next e = absurd (cc)
puts_in j (b ∷ bs) v tx next e = ground (arith, e, Dict.get-put bytes_discrete j (b ∷ bs) v tx)

map_db-IsLevelDb : IsLevelDb map_db
unfolding entry_or
map_db-IsLevelDb = record {
  get_in = under;
  is_open = λ s. s.1;
  put = λ j k v s next e. ground (arith, e, Dict.get-put bytes_discrete j k v s.0);
  delete = λ j k s next e. ground (arith, e, Dict.get-delete bytes_discrete j k s.0);
  open_transaction = λ j s next tx e. (ground (arith, e), ground (arith, e), ground (arith, e));
  put_in = λ j k v tx next e. puts_in j k v tx next e;
  delete_in = λ j k tx next e. ground (arith, e, Dict.get-delete bytes_discrete j k tx);
  committed = λ j tx s next e. (ground (arith, e), ground (arith, e));
  not_committed = λ j tx s next e. (ground (arith, e), ground (arith, e));
  discard = λ j tx s. (refl, refl);
}

map_db_store-IsStore : IsStore (level_db_store map_db)
map_db_store-IsStore =
    level_db_store-IsStore map_db map_db-IsLevelDb (λ k v s e. absurd (cc)) (λ k s e. absurd (cc))

abbrev puts : List (Bytes × Bytes)
puts = ((1 ∷ [], 7 ∷ []) ∷ (2 ∷ [], 8 ∷ []) ∷ [])

abbrev before : List (Bytes × Bytes)
before = ((2 ∷ [], 5 ∷ []) ∷ (3 ∷ [], 6 ∷ []) ∷ (4 ∷ [], 9 ∷ []) ∷ [])

put_change_set_lem_example :
    Comes map_db map_db-IsLevelDb puts
      ((3 ∷ []) ∷ [])
      (before, false)
      (put_change_set map_db puts ((3 ∷ []) ∷ []) (before, false))
unfolding Dict.get bytes_discrete ℕ_discrete map_db-IsLevelDb
put_change_set_lem_example =
    put_change_set_lem map_db map_db-IsLevelDb puts ((3 ∷ []) ∷ []) (before, false)
      (refl, (refl, tt)) refl

storage_code : Unit {0}
unfolding put_change_set change_in deletes_in put_all delete_all entry_or Dict.get Dict.put
    Dict.delete bytes_discrete ℕ_discrete
storage_code = tt

put_change_set_test :
    let r = put_change_set map_db puts ((3 ∷ []) ∷ (1 ∷ []) ∷ []) (before, false) in
    (r.1 ≡ true)
    × (under (1 ∷ []) r.0.0 ≡ not_found)
    × (under (2 ∷ []) r.0.0 ≡ got (8 ∷ []))
    × (under (3 ∷ []) r.0.0 ≡ not_found)
unfolding storage_code
put_change_set_test = (refl, refl, refl, refl)

-- A put that fails is discarded, and a commit that fails leaves the transaction open.
discards : put_change_set map_db (([], 7 ∷ []) ∷ []) [] (before, false) ≡ ((before, false), false)
unfolding storage_code
discards = refl

stays_open :
    put_change_set map_db ((9 ∷ [], 7 ∷ []) ∷ []) [] (before, false) ≡ ((before, true), false)
unfolding storage_code
stays_open = refl

append_prefix_int_test : append_prefix_int 192 10001 ≡ 192 ∷ 17 ∷ 39 ∷ 0 ∷ 0 ∷ []
unfolding append_prefix_int append_prefix little_endian
append_prefix_int_test = refl
