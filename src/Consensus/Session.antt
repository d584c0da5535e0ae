-- ===== src/Consensus/Session.antt =====
-- consensus/session/session.go and consensus/session/tlc.go: one node's part in the agreement on
-- one event. `WaitForProtocolMsg` starts a goroutine for each message. What a goroutine reads and
-- writes of the shared state it does under one mutex, so a message is one step; the steps come in
-- any order. A goroutine that returns without unlocking leaves the mutex held, and one that
-- waits for it, or for a receiver that is gone, stays in `stuck` for ever.
-- A message may still be handled when the session is over, since its goroutine may have been
-- started before.
-- Memory is unlimited: to set a bit far out costs nothing.
pub mod Prepare
pub mod Steps
pub mod Invariant
pub mod Soundness
pub mod Blocking
pub mod Liveness
pub mod Quorum
use relayer.Base.{
  ℕ, suc, List, [], ◌∷◌, Option, none, some, Bool, true, false, leb, ltb, ◌==◌, if◌then◌else◌, ite,
  get_elem?, Outcome, ok, panic, index_out_of_range, nil_dereference, negative_bit_index, ◌>>=◌,
}
use relayer.Base.Int.{ℤ, pos, negsuc}
use relayer.Consensus.Mask.{bit, set_bit, popcount}
use relayer.Consensus.Message.{Crypto, Message, MsgType, announce, prepare, prepared, unknown}

-- The count that `Popcount` returns.
unfoldable pub signers : ℕ → ℕ
signers mask = elim (popcount mask) [ some n ↦ n | none ↦ 0 ]

-- What the two checks return: nil, or one of their errors.
pub data Check : Type 0 where
  passes not_enough_signatures signature_mismatch : Check

-- A bit's position: math/big panics on a negative one.
unfoldable pub bit_index : ℤ → Outcome ℕ
bit_index (pos i) = ok i
bit_index (negsuc i) = panic negative_bit_index

pub data Event (c : Crypto) : Type 0 where
  -- a message arrives; `none` is one that the decoder refused
  deliver : Option (Message c) → Event c
  -- whoever waits for the agreement gives up
  receiver_gone : Event c
  -- the session's context is done
  context_done : Event c

module _ (c : Crypto) where
  open c use {Signature, PublicKey, PrivateKey, Topic}

  -- The fields of `Session` that nothing writes, and below them those that the protocol writes.
  pub record Config : Type 0 where
    pub id : ℕ
    pub topic : Topic
    pub threshold_ack : ℕ
    pub threshold_wit : ℕ
    pub public_keys : List PublicKey
    pub private_key : PrivateKey
    pub epoch_public_key : PublicKey
    pub membership_key : Signature

  pub record Session : Type 0 where
    pub config : Config
    pub open config use *
    pub acks : ℕ
    pub sig_mask : ℕ
    pub part_signature : Signature
    pub part_public_key : PublicKey

  -- A session under way: the locals of `WaitForProtocolMsg`, who waits for the agreement and how
  -- often it was told of it, and what was broadcast, the latest first.
  pub record Run : Type 0 where
    pub session : Session
    pub open session use *
    pub mutex_held : Bool
    pub cancelled : Bool
    pub receiver_waiting : Bool
    pub agreed : ℕ
    pub stuck : ℕ
    pub sent : List (Message c)

  unfoldable pub verify_threshold_witnesses : Config → Message c → Check
  verify_threshold_witnesses s msg =
      if ltb (signers msg.mask) s.threshold_ack
      then not_enough_signatures
      else if c.verify_multisig msg.signature s.epoch_public_key msg.public_key
          (c.marshal msg.bridge_event_hash) msg.mask
      then passes
      else signature_mismatch

  -- `session.PublicKeys[i]`
  unfoldable pub key_of : Config → ℕ → Outcome PublicKey
  key_of s i = elim (get_elem? s.public_keys i) [
    | some key ↦ ok key
    | none ↦ panic index_out_of_range
  ]

  unfoldable pub verify_ack_signature : Config → Message c → Outcome Check
  unfolding bit_index key_of
  verify_ack_signature s msg = do
    i ← bit_index msg.source
    key ← key_of s i
    ok (
        if c.verify_multisig msg.signature s.epoch_public_key key (c.marshal msg.bridge_event_hash)
          (set_bit 0 i)
        then passes
        else signature_mismatch)

  -- `StartProtocol`: the message that it broadcasts
  unfoldable pub start_protocol : Config → Message c
  start_protocol s = record {
    source = pos s.id;
    msg_type = announce;
    bridge_event_hash = s.topic;
    signature = c.nil_signature;
    mask = 0;
    public_key = c.nil_public_key;
  }

  abbrev pub broadcast : Message c → Run → Run
  broadcast msg r = record r { sent = msg ∷ r.sent }

  -- the goroutine cannot go on
  abbrev pub get_stuck : Run → Run
  get_stuck r = record r { stuck = suc r.stuck }

  -- the case `Prepared`, after the check, from the lock on
  unfoldable pub tell_agreement : Run → Run
  tell_agreement r =
      if r.mutex_held
      then get_stuck r
      else if r.cancelled
      then r
      else if r.receiver_waiting
      then record r { cancelled = true; receiver_waiting = false; agreed = suc r.agreed }
      else record r { mutex_held = true; stuck = suc r.stuck }

  unfoldable pub handle_prepared : Message c → Run → Run
  handle_prepared msg r = elim (verify_threshold_witnesses r.session.config msg) [
    | passes ↦ tell_agreement r
    | _ ↦ r
  ]

  -- The message of those who signed so far.
  unfoldable pub witness_message : Message c → Session → Message c
  witness_message msg s = record {
    source = pos s.id;
    msg_type = prepared;
    bridge_event_hash = msg.bridge_event_hash;
    signature = s.part_signature;
    mask = s.sig_mask;
    public_key = s.part_public_key;
  }

  -- the case `Prepare`, after a signature that passed: count it, and witness if it is the last
  unfoldable pub count_ack : Message c → ℕ → PublicKey → Session → Session
  count_ack msg i key s = record s {
    acks = suc s.acks;
    sig_mask = set_bit s.sig_mask i;
    part_signature = c.aggregate s.part_signature msg.signature;
    part_public_key = c.aggregate_keys s.part_public_key key;
  }

  unfoldable pub witness_acks : Message c → Run → Run
  witness_acks msg r =
      if leb r.threshold_ack r.acks
      then elim (verify_threshold_witnesses r.session.config (witness_message msg r.session)) [
        | passes ↦ broadcast (witness_message msg r.session) r
        | _ ↦ record r { mutex_held = true }
      ]
      else r

  -- the case `Prepare` between lock and unlock, for a message that is to be counted
  unfoldable pub take_ack : Message c → Run → Outcome Run
  take_ack msg r = do
    check ← verify_ack_signature r.session.config msg
    i ← bit_index msg.source
    key ← key_of r.session.config i
    ok (elim check [
      | passes ↦ witness_acks msg (record r { session = count_ack msg i key r.session })
      | _ ↦ record r { mutex_held = true }
    ])

  -- the second half of the test for acknowledgements that are not to be counted
  unfoldable pub check_sender : Message c → Run → Outcome Run
  check_sender msg r = do
    i ← bit_index msg.source
    if bit r.sig_mask i == 0 then take_ack msg r else ok r

  unfoldable pub handle_prepare : Message c → Run → Outcome Run
  handle_prepare msg r =
      if r.mutex_held
      then ok (get_stuck r)
      else if leb r.threshold_ack r.acks
      then ok r
      else check_sender msg r

  unfoldable pub handle_announce : Message c → Run → Run
  handle_announce msg r =
      broadcast
        (record {
          source = pos r.id;
          msg_type = prepare;
          bridge_event_hash = msg.bridge_event_hash;
          signature =
              c.multisign r.private_key (c.marshal msg.bridge_event_hash) r.epoch_public_key
                r.membership_key;
          mask = 0;
          public_key = c.nil_public_key;
        })
        r

  -- the `switch` of `WaitForProtocolMsg`
  unfoldable pub dispatch : MsgType → Message c → Run → Outcome Run
  dispatch prepared msg r = ok (handle_prepared msg r)
  dispatch prepare msg r = handle_prepare msg r
  dispatch announce msg r = ok (handle_announce msg r)
  dispatch (unknown n) msg r = ok r

  -- the goroutine of `WaitForProtocolMsg`; it reads the decoded message without a test for nil
  unfoldable pub handle : Option (Message c) → Run → Outcome Run
  handle none r = panic nil_dereference
  handle (some msg) r =
      ite (c.same_topic msg.bridge_event_hash r.topic) (dispatch msg.msg_type msg r) (ok r)

  unfoldable pub step : Event c → Run → Outcome Run
  step (deliver m) r = handle m r
  step receiver_gone r = ok (record r { receiver_waiting = false })
  step context_done r = ok (record r { cancelled = true })

  unfoldable pub run : List (Event c) → Run → Outcome Run
  run [] r = ok r
  run (e ∷ es) r = do r' ← step e r; run es r'

  -- A session as `NewSession` makes it, with `WaitForProtocolMsg` just entered.
  unfoldable pub start : Config → Run
  start s = record {
    session = record {
      config = s;
      acks = 0;
      sig_mask = c.empty_multisig_mask;
      part_signature = c.zero_signature;
      part_public_key = c.zero_public_key;
    };
    mutex_held = false;
    cancelled = false;
    receiver_waiting = true;
    agreed = 0;
    stuck = 0;
    sent = [];
  }
