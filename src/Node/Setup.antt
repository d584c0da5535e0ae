-- ===== src/Node/Setup.antt =====
-- `BlsSetup` of node/bridge/node.go: how a node gathers its membership key from the parts that the
-- nodes of an epoch send it. The goroutine of a message changes the shared state under one mutex,
-- so the order of the goroutines is the order of the messages here.
pub mod Bits
pub mod Heard
pub mod Ends
use relayer.Base.{
  ℕ, zero, suc, ◌+◌, ◌-◌, ◌*◌, ◌/◌, ◌%◌, ◌^◌, ◌==◌, ◌||◌, ltb, List, [], ◌∷◌, Bool, true, false,
  Option, none, some, Outcome, ok, panic, index_out_of_range, ◌>>=◌, if◌then◌else◌, length,
  get_elem?,
}
use relayer.Base.Int.{ℤ, pos, negsuc}
use relayer.Consensus.Mask.{set_bit}

-- The library of BLS multisignatures, for one node and one epoch, whose keys it knows.
pub record SetupCrypto : Type 1 where
  pub Signature : Type 0
  pub zero_signature : Signature
  pub aggregate : Signature → Signature → Signature
  -- the part for the node with the index, a byte
  pub generate_membership_key_part : ℕ → Signature
  -- whether a part is good that came from the node with the index
  pub verify_membership_key_part : Signature → ℕ → Bool

-- `MessageBlsSetup`; `other_type` are the numbers that no case names
pub data SetupType : Type 0 where
  bls_setup_phase bls_setup_parts other_type : SetupType

pub record MessageBlsSetup (c : SetupCrypto) : Type 0 where
  pub source : ℤ
  pub msg_type : SetupType
  pub membership_key_parts : List c.Signature

-- the variables of `BlsSetup`, with what it broadcast and whether it cancelled its context
pub record BlsSetup (c : SetupCrypto) : Type 0 where
  pub received_mask : ℤ
  pub membership_key : c.Signature
  pub cancelled : Bool
  pub sent : List (MessageBlsSetup c)

-- `SetBit(_, i, 0)` of a `big.Int`, negative numbers in two's complement
unfoldable pub clear_bit_pos : ℕ → ℕ → ℕ
clear_bit_pos z zero = z / 2 * 2
clear_bit_pos z (suc i) = clear_bit_pos (z / 2) i * 2 + z % 2

unfoldable pub clear_bit : ℤ → ℕ → ℤ
clear_bit (pos z) i = pos (clear_bit_pos z i)
clear_bit (negsuc z) i = negsuc (set_bit z i)

-- `Sign() == 0`
unfoldable pub is_zero : ℤ → Bool
is_zero (pos z) = z == 0
is_zero (negsuc z) = false

-- `(1 << np) - 1`, in an int of 64 bits
unfoldable pub all_ones : ℕ → ℤ
all_ones np = if ltb np 64 then pos (2 ^ np - 1) else negsuc 0

module _ (c : SetupCrypto) (id : ℕ) (np : ℕ) where
  unfoldable pub start_setup : BlsSetup c
  start_setup = record {
    received_mask = all_ones np;
    membership_key = c.zero_signature;
    cancelled = false;
    sent = [];
  }

  -- the parts for the nodes from the given index on
  unfoldable pub parts_from : ℕ → ℕ → List c.Signature
  parts_from zero i = []
  parts_from (suc n) i = c.generate_membership_key_part (i % 256) ∷ parts_from n (suc i)

  unfoldable pub answer_setup : BlsSetup c → BlsSetup c
  answer_setup s = record s {
    sent =
        record {
          source = pos id;
          msg_type = bls_setup_parts;
          membership_key_parts = parts_from np 0;
        }
        ∷ s.sent;
  }

  -- what is done with a part, good or bad, of a node
  unfoldable pub take_part : c.Signature → ℕ → BlsSetup c → BlsSetup c
  take_part part source s =
      let mask = clear_bit s.received_mask source in
      record s {
        membership_key = c.aggregate s.membership_key part;
        received_mask = mask;
        cancelled = if is_zero mask then true else s.cancelled;
      }

  -- a bad part is logged, and taken
  unfoldable pub verify_part : c.Signature → ℕ → BlsSetup c → BlsSetup c
  verify_part part source s =
      if c.verify_membership_key_part part source
      then take_part part source s
      else take_part part source s

  -- the index into `PublicKeys`
  unfoldable pub part_from : c.Signature → ℤ → BlsSetup c → Outcome (BlsSetup c)
  part_from part (negsuc n) s = panic index_out_of_range
  part_from part (pos source) s =
      if ltb source np then ok (verify_part part source s) else panic index_out_of_range

  unfoldable pub handle_parts : List c.Signature → ℤ → BlsSetup c → Outcome (BlsSetup c)
  handle_parts parts source s = elim (get_elem? parts id) [
    | none ↦ panic index_out_of_range
    | some part ↦ part_from part source s
  ]

  unfoldable pub handle_type : SetupType → MessageBlsSetup c → BlsSetup c → Outcome (BlsSetup c)
  handle_type bls_setup_phase msg s = ok (answer_setup s)
  handle_type bls_setup_parts msg s = handle_parts msg.membership_key_parts msg.source s
  handle_type other_type msg s = ok s

  -- the goroutine of a message; none for bytes that do not decode
  unfoldable pub handle_setup : Option (MessageBlsSetup c) → BlsSetup c → Outcome (BlsSetup c)
  handle_setup none s = ok s
  handle_setup (some msg) s = handle_type msg.msg_type msg s

  -- the goroutines of the messages that the loop receives
  unfoldable pub handle_all : List (Option (MessageBlsSetup c)) → BlsSetup c → Outcome (BlsSetup c)
  handle_all [] s = ok s
  handle_all (msg ∷ msgs) s = handle_setup msg s >>= handle_all msgs

  -- The loop ends as soon as a receive gives nil: after the context was cancelled, or because it
  -- failed, or the node's own context was done, which `lost` tells.
  unfoldable pub returns : Bool → BlsSetup c → Option c.Signature
  returns lost s = if lost || s.cancelled then some s.membership_key else none

  -- `BlsSetup`, over the messages received up to the nil; none where it waits for more
  unfoldable pub bls_setup : List (Option (MessageBlsSetup c)) → Bool → Outcome (Option c.Signature)
  bls_setup msgs lost = handle_all msgs start_setup >>= λ s. ok (returns lost s)
