-- ===== src/Chain/Header.antt =====
-- chain/header.go and chain/epoch.go: the header of a block. A `big.Int` is an integer, hashes and
-- the 96 bytes of the last commit's signature are lists of bytes. `Serialize` of an epoch, which
-- calls encoding/gob, is left out.
use relayer.Base.{ℕ, [], ◌∷◌, Bytes, zeros}
use relayer.Base.Int.{ℤ, pos}

pub record Epoch : Type 0 where
  pub number : ℤ
  pub sign : Bytes
  pub leader : Bytes

pub record Header : Type 0 where
  pub parent_hash : Bytes
  pub root : Bytes
  pub number : ℕ
  pub time : ℕ
  pub epoch : Epoch
  pub last_commit_signature : Bytes
  pub last_commit_bitmap : Bytes

-- `common.Hash{}`, the zero value of an array
abbrev pub zero_hash : Bytes
zero_hash = zeros 32

unfoldable pub create_genesis_epoch : Epoch
create_genesis_epoch = record {
  number = pos 0;
  sign =
      103 ∷ 101 ∷ 110 ∷ 101 ∷ 115 ∷ 105 ∷ 115 ∷ 32 ∷ 115 ∷ 105 ∷ 103 ∷ 110 ∷ 97 ∷ 116 ∷ 117 ∷ 114
      ∷ 101 ∷ [];
  leader = 108 ∷ 101 ∷ 97 ∷ 100 ∷ 101 ∷ 114 ∷ 32 ∷ 98 ∷ 121 ∷ 116 ∷ 101 ∷ 115 ∷ [];
}

unfoldable pub create_new_epoch : Epoch
create_new_epoch = record { number = pos 0; sign = []; leader = [] }

unfoldable pub new_header : Epoch → Header
new_header e = record {
  parent_hash = zero_hash;
  root = zero_hash;
  number = 1;
  time = 1111111111;
  epoch = e;
  last_commit_signature = zeros 96;
  last_commit_bitmap = [];
}

unfoldable pub set_parent_hash : Bytes → Header → Header
set_parent_hash new_parent_hash h = record h { parent_hash = new_parent_hash }
