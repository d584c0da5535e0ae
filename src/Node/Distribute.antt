-- ===== src/Node/Distribute.antt =====
-- node/bridge/distribute.go: how the leader sends a block and the others take it. Blocks and the
-- ledger are of eywa-overhead-chain, and what is called of it is a parameter.
use relayer.Base.{
  List, [], ◌∷◌, Bytes, Option, none, some, Bool, false, Outcome, ok, ◌>>=◌, ◌≡◌, refl, arith,
}
use relayer.Base.Int.{ℤ}

-- the numbers of `MsgType`; `other_message` are those that the switch does not name
pub data MessageType : Type 0 where
  distribute_block_phase other_message : MessageType

pub record BlockMessage : Type 0 where
  pub source : ℤ
  pub msg_type : MessageType
  pub block_bytes : Bytes

pub record Ledgers (Block Ledger : Type 0) : Type 0 where
  -- of a block, none for nil
  pub to_array : Option Block → Outcome Bytes
  pub block_from_raw_bytes : Bytes → Option Block
  -- the ledger after an attempt, whether it had an error or not
  pub exec_and_save_block : Block → Ledger → Ledger

-- what a round of the loop of `ReceiveAndSaveBlock` meets; a message is none if it cannot be decoded
pub data Round : Type 0 where
  context_done no_message : Round
  received : Option BlockMessage → Round

-- how the `select` of a round is left
pub data Left : Type 0 where
  breaks falls_through : Left

module _ {Block Ledger : Type 0} (k : Ledgers Block Ledger) where
  -- the message that `DistributeBlock` broadcasts
  unfoldable pub distribute_block : ℤ → Option Block → Outcome BlockMessage
  distribute_block id block = k.to_array block >>= λ bytes.
      ok (record { source = id; msg_type = distribute_block_phase; block_bytes = bytes })

  -- the goroutine of a message
  unfoldable pub save_block : Option BlockMessage → Ledger → Ledger
  save_block none ledger = ledger
  save_block (some msg) ledger = elim msg.msg_type [
    | other_message ↦ ledger
    | distribute_block_phase ↦ elim (k.block_from_raw_bytes msg.block_bytes) [
      | none ↦ ledger
      | some block ↦ k.exec_and_save_block block ledger
    ]
  ]

  unfoldable pub receive_round : Round → Ledger → Ledger × Left
  receive_round context_done ledger = (ledger, breaks)
  receive_round no_message ledger = (ledger, breaks)
  receive_round (received msg) ledger = (save_block msg ledger, falls_through)

  -- the `for` around it: a `break` leaves the `select`, as does its end, and the next round begins.
  -- With the ledger after these rounds, and whether the function has returned.
  unfoldable pub receive_and_save_block : List Round → Ledger → Ledger × Bool
  receive_and_save_block [] ledger = (ledger, false)
  receive_and_save_block (round ∷ rounds) ledger =
      let next = receive_round round ledger in
      elim next.1 [
        | breaks ↦ receive_and_save_block rounds next.0
        | falls_through ↦ receive_and_save_block rounds next.0
      ]

  -- it never returns, whatever it receives
  pub receive_and_save_block_hangs :
      (rounds : List Round) (ledger : Ledger) → (receive_and_save_block rounds ledger).1 ≡ false
  unfolding receive_and_save_block
  receive_and_save_block_hangs [] ledger = refl
  receive_and_save_block_hangs (round ∷ rounds) ledger =
      ground (arith, receive_and_save_block_hangs rounds (receive_round round ledger).0)
