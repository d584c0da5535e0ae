-- ===== src/Consensus/Session/Prepare.antt =====
-- What the case `Prepare` of consensus/session/tlc.go does, by cases.
use relayer.Base.{
  ℕ, ◌<◌, Bool, true, false, leb, ◌==◌, if◌then◌else◌, ok, >>=-eq-ok, ◌≡◌, inl, inr, arith,
  Bool-cases,
}
use relayer.Base.Int.{ℤ, pos, negsuc}
use relayer.Consensus.Mask.{bit, set_bit}
use relayer.Consensus.Message.{Crypto, Message}
use relayer.Consensus.Session

module _ (c : Crypto) where
  -- The signature of an acknowledgement is its sender's.
  abbrev pub ack_verifies : Session.Config c → Message c → ℕ → c.PublicKey → Bool
  ack_verifies s m i key =
      c.verify_multisig m.signature s.epoch_public_key key (c.marshal m.bridge_event_hash)
        (set_bit 0 i)

  -- An acknowledgement that is to be checked: nobody holds the mutex, the threshold is not
  -- reached, and its sender has a key and did not acknowledge before.
  pub record IsAwaited (m : Message c) (r : Session.Run c) (i : ℕ) (key : c.PublicKey)
      : Type 0 where
    pub free : r.mutex_held ≡ false
    pub missing : r.session.acks < r.session.config.threshold_ack
    pub from : m.source ≡ pos i
    pub first : bit r.session.sig_mask i ≡ 0
    pub known : Session.key_of c r.session.config i ≡ ok key

  pub data PrepareCase (m : Message c) (r r' : Session.Run c) : Type 0 where
    waits : r.mutex_held ≡ true → r' ≡ Session.get_stuck c r → PrepareCase m r r'
    ignored : r.mutex_held ≡ false → r' ≡ r → PrepareCase m r r'
    refused :
        (i : ℕ) (key : c.PublicKey)
        → IsAwaited m r i key
        → ack_verifies r.session.config m i key ≡ false
        → r' ≡ record r { mutex_held = true }
        → PrepareCase m r r'
    counts :
        (i : ℕ) (key : c.PublicKey)
        → IsAwaited m r i key
        → ack_verifies r.session.config m i key ≡ true
        → r'
          ≡ Session.witness_acks c m (record r { session = Session.count_ack c m i key r.session })
        → PrepareCase m r r'

  from_bit_index : (z : ℤ) {i : ℕ} → Session.bit_index z ≡ ok i → z ≡ pos i
  unfolding Session.bit_index
  from_bit_index (pos n) e = ground arith
  from_bit_index (negsuc n) e = cc

  pub verify_ack_signature-eq :
      (s : Session.Config c) (m : Message c) (i : ℕ) (key : c.PublicKey)
      → Session.bit_index m.source ≡ ok i
      → Session.key_of c s i ≡ ok key
      → Session.verify_ack_signature c s m
        ≡ ok (if ack_verifies s m i key then Session.passes else Session.signature_mismatch)
  unfolding Session.verify_ack_signature
  verify_ack_signature-eq s m i key e k = rw (e, k)

  take_ack-cases :
      (m : Message c) (r r' : Session.Run c)
      → r.mutex_held ≡ false
      → leb r.session.config.threshold_ack r.session.acks ≡ false
      → ((i : ℕ) → Session.bit_index m.source ≡ ok i → bit r.session.sig_mask i ≡ 0)
      → Session.take_ack c m r ≡ ok r'
      → PrepareCase m r r'
  unfolding Session.take_ack
  take_ack-cases m r r' free more first e =
      let (check, e₁, e₂) = >>=-eq-ok (Session.verify_ack_signature c r.session.config m) _ e in
      let (i, at_, e₃) = >>=-eq-ok (Session.bit_index m.source) _ e₂ in
      let (key, known, e₄) = >>=-eq-ok (Session.key_of c r.session.config i) _ e₃ in
      let awaited : IsAwaited m r i key = record {
        free = free;
        missing = ground arith;
        from = from_bit_index m.source at_;
        first = first i at_;
        known = known;
      } in
      let checked = verify_ack_signature-eq r.session.config m i key at_ known in
      elim (Bool-cases (ack_verifies r.session.config m i key)) [
        | inl good ↦ counts i key awaited good (ground arith)
        | inr bad ↦ refused i key awaited bad (ground arith)
      ]

  check_sender-cases :
      (m : Message c) (r r' : Session.Run c)
      → r.mutex_held ≡ false
      → leb r.session.config.threshold_ack r.session.acks ≡ false
      → Session.check_sender c m r ≡ ok r'
      → PrepareCase m r r'
  unfolding Session.check_sender
  check_sender-cases m r r' free more e =
      let (i, at_, e₁) = >>=-eq-ok (Session.bit_index m.source) _ e in
      elim (Bool-cases (bit r.session.sig_mask i == 0)) [
        | inl first ↦ take_ack-cases m r r' free more (λ j e₂. ground arith) (ground arith)
        | inr again ↦ ignored free (ground arith)
      ]

  -- Whenever `Prepare` is handled without a panic, one of the four cases holds.
  pub handle_prepare-cases :
      (m : Message c) (r r' : Session.Run c)
      → Session.handle_prepare c m r ≡ ok r'
      → PrepareCase m r r'
  unfolding Session.handle_prepare
  handle_prepare-cases m r r' e = elim (Bool-cases r.mutex_held) [
    | inl held ↦ waits held (ground arith)
    | inr free ↦ elim (Bool-cases (leb r.session.config.threshold_ack r.session.acks)) [
      | inl full ↦ ignored free (ground arith)
      | inr more ↦ check_sender-cases m r r' free more (ground arith)
    ]
  ]
