-- ===== src/Tests/Rawdb.antt =====
-- chain/rawdb over a map, and with a codec that writes the lengths of a header's fields first.
use relayer.Base.{
  ℕ, zero, suc, List, [], ◌∷◌, ◌++◌, Bytes, bytes_discrete, length, take, drop, take-append,
  drop-append, Option, none, some, Bool, ◌∙◌, true, false, ◌≡◌, refl, arith, if_pos, subst, ap,
  ℕ_discrete,
}
use relayer.Base.Int.{ℤ, pos, negsuc}
use relayer.Base.Dict
use relayer.Chain.Header.{Header, zero_hash, new_header, create_genesis_epoch, set_parent_hash}
use relayer.Chain.Rawdb.Schema.{header_hash_key, big_endian}
use relayer.Chain.Rawdb.Entry.{header, key, key_injective}
use relayer.Chain.Rawdb.Accessors.{
  Database, Codec, read_canonical_hash, write_canonical_hash, write_head_header_hash,
  write_head_block_hash, write_head_fast_block_hash,
}
use relayer.Chain.Rawdb.RoundTrips.{IsStore, IsCodec}

abbrev found : Option Bytes → Bytes × Bool
found (some v) = (v, true)
found none = ([], false)

abbrev pub map_store : Database
map_store = record {
  State = List (Bytes × Bytes);
  has = λ k s. (true, true);
  get = λ k s. found (Dict.get bytes_discrete k s);
  put = λ k v s. (Dict.put bytes_discrete k v s, true);
  delete = λ k s. (Dict.delete bytes_discrete k s, true);
}

pub map_store-IsStore : IsStore map_store
map_store-IsStore = record {
  get-put = λ k v s.
      rw (Dict.get-put bytes_discrete k k v s)
        (rw (if_pos (bytes_discrete k k) refl (some v) (Dict.get bytes_discrete k s)) refl);
  get-put_other = λ j k v s n. ground (arith, Dict.get-put bytes_discrete j k v s);
  get-delete = λ k s. ground (arith, Dict.get-delete bytes_discrete k k s);
  get-delete_other = λ j k s n. ground (arith, Dict.get-delete bytes_discrete j k s);
}

abbrev int_codec : Codec ℤ
int_codec = record {
  encode = λ z. elim z [ pos n ↦ some (0 ∷ n ∷ []) | negsuc n ↦ some (1 ∷ n ∷ []) ];
  decode = λ bs. elim bs [
    | zero ∷ n ∷ [] ↦ some (pos n)
    | suc zero ∷ n ∷ [] ↦ some (negsuc n)
    | _ ↦ none
  ];
}

int_codec-IsCodec : IsCodec int_codec
int_codec-IsCodec = record { encode = not_empty; decode = λ z bs e. by_sign z bs e }
  where
    not_empty : (z : ℤ) → (b : ℕ) × (bs : Bytes) × (int_codec.encode z ≡ some (b ∷ bs))
    not_empty (pos n) = (0, n ∷ [], refl)
    not_empty (negsuc n) = (1, n ∷ [], refl)

    by_sign : (z : ℤ) (bs : Bytes) → int_codec.encode z ≡ some bs → int_codec.decode bs ≡ some z
    by_sign (pos n) bs e =
        let same : 0 ∷ n ∷ [] ≡ bs = cc in subst (λ x. int_codec.decode x ≡ some (pos n)) same refl
    by_sign (negsuc n) bs e =
        let same : 1 ∷ n ∷ [] ≡ bs = cc in
        subst (λ x. int_codec.decode x ≡ some (negsuc n)) same refl

abbrev sign_of : ℤ → ℕ
sign_of (pos n) = 0
sign_of (negsuc n) = 1

abbrev size_of : ℤ → ℕ
size_of (pos n) = n
size_of (negsuc n) = n

abbrev int_of : ℕ → ℕ → ℤ
int_of zero n = pos n
int_of (suc m) n = negsuc n

abbrev fields_of : Header → List Bytes
fields_of h =
    h.parent_hash ∷ h.root ∷ h.epoch.sign ∷ h.epoch.leader ∷ h.last_commit_signature
    ∷ h.last_commit_bitmap ∷ []

-- each field after its length
abbrev pack : List Bytes → Bytes
pack [] = []
pack (f ∷ fs) = length f ∷ (f ++ pack fs)

abbrev unpack : ℕ → Bytes → List Bytes
unpack zero bs = []
unpack (suc n) [] = []
unpack (suc n) (l ∷ bs) = take l bs ∷ unpack n (drop l bs)

unpack-pack : (fs : List Bytes) → unpack (length fs) (pack fs) ≡ fs
unpack-pack [] = refl
unpack-pack (f ∷ fs) =
    rw
      (
        take-append (length f) f (pack fs) refl,
        drop-append (length f) f (pack fs) refl,
        unpack-pack fs,
      )
      refl

abbrev header_of : ℕ → ℕ → ℤ → List Bytes → Option Header
header_of number time epoch (p ∷ r ∷ s ∷ l ∷ c ∷ b ∷ []) = some (record {
  parent_hash = p;
  root = r;
  number = number;
  time = time;
  epoch = record { number = epoch; sign = s; leader = l };
  last_commit_signature = c;
  last_commit_bitmap = b;
})
header_of number time epoch _ = none

abbrev header_bytes : Header → Bytes
header_bytes h =
    h.number ∷ h.time ∷ sign_of h.epoch.number ∷ size_of h.epoch.number ∷ pack (fields_of h)

abbrev bytes_header : Bytes → Option Header
bytes_header (n ∷ t ∷ m ∷ z ∷ rest) = header_of n t (int_of m z) (unpack 6 rest)
bytes_header _ = none

int_of_parts : (z : ℤ) → int_of (sign_of z) (size_of z) ≡ z
int_of_parts (pos n) = refl
int_of_parts (negsuc n) = refl

bytes_header-header_bytes : (h : Header) → bytes_header (header_bytes h) ≡ some h
bytes_header-header_bytes h =
    ap (header_of h.number h.time (int_of (sign_of h.epoch.number) (size_of h.epoch.number)))
      (unpack-pack (fields_of h))
    ∙ ap (λ z. header_of h.number h.time z (fields_of h)) (int_of_parts h.epoch.number)

abbrev header_codec : Codec Header
header_codec = record { encode = λ h. some (header_bytes h); decode = bytes_header }

header_codec-IsCodec : IsCodec header_codec
header_codec-IsCodec = record {
  encode = λ h. (h.number, _, refl);
  decode = λ h bs e.
      let same : header_bytes h ≡ bs = cc in
      subst (λ x. bytes_header x ≡ some h) same (bytes_header-header_bytes h);
}

program : Unit {0}
unfolding new_header create_genesis_epoch set_parent_hash read_canonical_hash write_canonical_hash
    header_hash_key big_endian bytes_discrete ℕ_discrete Dict.get Dict.put Dict.delete key
program = tt

abbrev keep : Bytes → Bytes
keep bs = bs

abbrev genesis_header : Header
genesis_header = record {
  parent_hash = zero_hash;
  root = zero_hash;
  number = 1;
  time = 1111111111;
  epoch = record { number = pos 0; sign = 7 ∷ []; leader = [] };
  last_commit_signature = [];
  last_commit_bitmap = [];
}

abbrev stored : List (Bytes × Bytes)
stored = (76 ∷ 97 ∷ [], 5 ∷ []) ∷ []

key_injective_example : header 258 zero_hash ≡ header 258 zero_hash
key_injective_example =
    key_injective (header 258 zero_hash) (header 258 zero_hash) (omega arith, refl)
      (omega arith, refl) refl

abbrev three_heads : List (Bytes × Bytes)
three_heads =
    write_head_fast_block_hash map_store zero_hash (
      write_head_block_hash map_store zero_hash (write_head_header_hash map_store zero_hash stored))
