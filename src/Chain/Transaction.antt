-- ===== src/Chain/Transaction.antt =====
-- chain/transaction.go. The event that a transaction carries is of the package wrappers, which is
-- not of this repository: an arbitrary type, with what is read of it.
use relayer.Base.{ℕ, Bytes, ◌==◌, ◌&&◌, Bool, true, if◌then◌else◌}

-- what the code reads and writes of wrappers.BridgeOracleRequest
pub record Requests (Request : Type 0) : Type 0 where
  -- the address of the contract that emitted it
  pub bridge : Request → Bytes
  -- whether its `Chainid`, a pointer, is not nil, and the low 64 bits of that then
  pub has_chainid : Request → Bool
  pub chainid : Request → ℕ
  -- the literal of `NewCoinbaseTX`, for the identifier of an epoch
  pub genesis : Bytes → Request

pub record Transaction (Request : Type 0) : Type 0 where
  pub chain_id : ℕ
  pub origin_data : Request
  pub nonce : ℕ

unfoldable pub new_transaction : {Request : Type 0} → Request → ℕ → ℕ → Transaction Request
new_transaction ev nonce chain_id = record { chain_id = chain_id; origin_data = ev; nonce = nonce }

module _ {Request : Type 0} (requests : Requests Request) where
  unfoldable pub sender_address : Transaction Request → Bytes
  sender_address tx = requests.bridge tx.origin_data

  unfoldable pub new_coinbase_tx : Bytes → Transaction Request
  unfolding new_transaction
  new_coinbase_tx epoch_id = new_transaction (requests.genesis epoch_id) 0 0

module _ {Request : Type 0} where
  unfoldable pub is_coinbase : Transaction Request → Bool
  is_coinbase tx = (tx.nonce == 0) && (tx.chain_id == 0)

  -- Nothing is signed yet.
  unfoldable pub sign : Transaction Request → Transaction Request
  sign tx = if is_coinbase tx then tx else tx

  unfoldable pub verify : Transaction Request → Bool
  verify tx = if is_coinbase tx then true else true
