-- ===== src/Node/Setup/Ends.antt =====
-- When `BlsSetup` of node/bridge/node.go is over, and what its membership key is then.
use relayer.Base.{ℕ, ltb, Bool, true, false, Option, none, some, get_elem?}
use relayer.Base.Int.{ℤ, pos}
use relayer.Node.Setup.{SetupCrypto, SetupType, bls_setup_parts, MessageBlsSetup}

module _ (c : SetupCrypto) (id : ℕ) (np : ℕ) where
  -- A message with parts is from a node of the epoch, and has a part for this one.
  abbrev pub fits : SetupType → ℤ → Option c.Signature → Bool
  fits bls_setup_parts (pos source) (some part) = ltb source np
  fits bls_setup_parts source part = false
  fits t source part = true

  abbrev pub fits_setup : Option (MessageBlsSetup c) → Bool
  fits_setup none = true
  fits_setup (some msg) = fits msg.msg_type msg.source (get_elem? msg.membership_key_parts id)
