-- ===== src/Consensus/Message.antt =====
-- consensus/session/message.go, and the library of BLS multisignatures that the session calls.
use relayer.Base.{ℕ, List, Bool}
use relayer.Base.Int.{ℤ}

-- github.com/eywa-protocol/bls-crypto, package bls, as far as tlc.go uses it; `marshal` is
-- `json.Marshal` of a message's body. A mask is a `big.Int` that is not negative.
pub record Crypto : Type 1 where
  pub Signature : Type 0
  pub PublicKey : Type 0
  pub PrivateKey : Type 0
  -- the topic strings, which name the events
  pub Topic : Type 0
  pub same_topic : Discrete Topic
  pub marshal : Topic → List ℕ
  -- the zero values of the two types, and the neutral elements of aggregation
  pub nil_signature : Signature
  pub nil_public_key : PublicKey
  pub zero_signature : Signature
  pub zero_public_key : PublicKey
  pub empty_multisig_mask : ℕ
  pub aggregate : Signature → Signature → Signature
  pub aggregate_keys : PublicKey → PublicKey → PublicKey
  -- the signature, the epoch's key, the key of those who signed, the message, their mask
  pub verify_multisig : Signature → PublicKey → PublicKey → List ℕ → ℕ → Bool
  -- the signer's key, the message, the epoch's key, the membership key
  pub multisign : PrivateKey → List ℕ → PublicKey → Signature → Signature

-- `MsgType`, an int; `unknown` are the values that no constant names.
pub data MsgType : Type 0 where
  announce prepare prepared : MsgType
  unknown : ℤ → MsgType

-- `MessageWithSig`, with the fields of its header and its body. `History` is left out: it is
-- always empty and never read. `signature` and `public_key` are what the decoder made of the
-- bytes, good or bad.
pub record Message (c : Crypto) : Type 0 where
  pub source : ℤ
  pub msg_type : MsgType
  pub bridge_event_hash : c.Topic
  pub signature : c.Signature
  pub mask : ℕ
  pub public_key : c.PublicKey
