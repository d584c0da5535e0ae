-- ===== src/Consensus/Session/Liveness.antt =====
-- That a session of consensus/session/tlc.go reaches agreement: the good case. What it needs of
-- the multisignature library is stated as laws.
use relayer.Base.{
  In, ℕ, suc, ◌≤◌, ◌<◌, ◌^◌, List, some, true, false, ok, ◌≡◌, refl, ◌⊎◌, inl, inr, leb, subst,
  arith, sym, Bool-cases, ap, length,
}
use relayer.Base.Int.{pos}
use relayer.Consensus.Mask.{bit, set_bit}
use relayer.Consensus.Mask.Bits.{ones_below}
use relayer.Consensus.Mask.Count.{popcount-eq-ones_below}
use relayer.Consensus.Message.{Crypto, Message, prepare, prepared}
use relayer.Consensus.Session
use relayer.Consensus.Session.Prepare.{ack_verifies}
use relayer.Consensus.Session.Invariant.{IsConsistent, step-IsConsistent}

-- The multisignatures of two disjoint groups aggregate to one of their union, and the neutral
-- elements are neutral.
pub record CryptoLaws (c : Crypto) : Type 0 where
  pub empty_mask : c.empty_multisig_mask ≡ 0
  pub zero-aggregate : (σ : c.Signature) → c.aggregate c.zero_signature σ ≡ σ
  pub zero-aggregate_keys : (k : c.PublicKey) → c.aggregate_keys c.zero_public_key k ≡ k
  pub verify-aggregate :
      (σ τ : c.Signature) (epoch k l : c.PublicKey) (body : List ℕ) (mask i : ℕ)
      → c.verify_multisig σ epoch k body mask ≡ true
      → c.verify_multisig τ epoch l body (set_bit 0 i) ≡ true
      → bit mask i ≡ 0
      → c.verify_multisig (c.aggregate σ τ) epoch (c.aggregate_keys k l) body (set_bit mask i)
        ≡ true

module _ (c : Crypto) (s : Session.Config c) where
  -- The aggregate of the acknowledgements counted so far verifies.
  abbrev pub Verifies : Session.Session c → Type 0
  Verifies x =
      c.verify_multisig x.part_signature s.epoch_public_key x.part_public_key (c.marshal s.topic)
        x.sig_mask
      ≡ true

  abbrev pub IsFresh : Session.Session c → Type 0
  IsFresh x =
      (x.part_signature ≡ c.zero_signature)
      × (x.part_public_key ≡ c.zero_public_key)
      × (x.sig_mask ≡ 0)

  pub record IsCollecting (r : Session.Run c) : Type 0 where
    pub consistent : IsConsistent c s r
    pub free : r.mutex_held ≡ false
    pub aggregated : IsFresh r.session ⊎ Verifies r.session

  -- A good acknowledgement: for the topic, from node i with the given key, not yet counted.
  pub record IsGoodAck (m : Message c) (mask i : ℕ) : Type 0 where
    pub topic : m.bridge_event_hash ≡ s.topic
    pub is_prepare : m.msg_type ≡ prepare
    pub source : m.source ≡ pos i
    pub key : c.PublicKey
    pub known : Session.key_of c s i ≡ ok key
    pub first : bit mask i ≡ 0
    pub verified : ack_verifies c s m i key ≡ true

  -- A witnessed message was sent, and it passes the check that its receivers make.
  pub record HasWitness (r : Session.Run c) : Type 0 where
    pub message : Message c
    pub sent : In message r.sent
    pub is_prepared : message.msg_type ≡ prepared
    pub topic : message.bridge_event_hash ≡ s.topic
    pub passes : Session.verify_threshold_witnesses c s message ≡ Session.passes

module _ (c : Crypto) (laws : CryptoLaws c) (s : Session.Config c) where
  signers-eq : (w mask : ℕ) → mask < 2 ^ w → Session.signers mask ≡ ones_below w mask
  unfolding Session.signers
  signers-eq w mask h = ground (arith, popcount-eq-ones_below w mask h)

  count_ack-Verifies :
      (m : Message c) (i : ℕ) (x : Session.Session c) (g : IsGoodAck c s m x.sig_mask i)
      → IsFresh c s x ⊎ Verifies c s x
      → Verifies c s (Session.count_ack c m i g.key x)
  unfolding Session.count_ack
  count_ack-Verifies m i x g (inl (σ, k, mask)) =
      rw (σ, k, mask, laws.zero-aggregate m.signature, laws.zero-aggregate_keys g.key)
        (subst
          (λ t.
            c.verify_multisig m.signature s.epoch_public_key g.key (c.marshal t) (set_bit 0 i)
            ≡ true)
          g.topic g.verified)
  count_ack-Verifies m i x g (inr v) =
      laws.verify-aggregate x.part_signature m.signature s.epoch_public_key x.part_public_key g.key
        (c.marshal s.topic) x.sig_mask i v
        (subst
          (λ t.
            c.verify_multisig m.signature s.epoch_public_key g.key (c.marshal t) (set_bit 0 i)
            ≡ true)
          g.topic g.verified)
        g.first

  -- The state after a good acknowledgement.
  abbrev pub after_ack :
      (m : Message c) (i : ℕ) (r : Session.Run c)
      → IsGoodAck c s m r.session.sig_mask i
      → Session.Run c
  after_ack m i r g =
      Session.witness_acks c m (record r { session = Session.count_ack c m i g.key r.session })

  pub step_good_ack :
      (m : Message c) (i : ℕ) (r : Session.Run c) (g : IsGoodAck c s m r.session.sig_mask i)
      → IsCollecting c s r
      → r.session.acks < s.threshold_ack
      → Session.step c (Session.deliver (some m)) r ≡ ok (after_ack m i r g)
  unfolding Session.step Session.handle Session.dispatch Session.handle_prepare Session.check_sender
      Session.bit_index Session.take_ack Session.verify_ack_signature
  step_good_ack m i r g h missing = ground (
    arith, h.consistent.same, h.free, g.topic, g.is_prepare, g.source, g.known, g.first, g.verified,
  )

  session-witness_acks :
      (m : Message c) (r : Session.Run c) → (Session.witness_acks c m r).session ≡ r.session
  unfolding Session.witness_acks
  session-witness_acks m r = ground arith

  after_ack-IsConsistent :
      (m : Message c) (i : ℕ) (r : Session.Run c) (g : IsGoodAck c s m r.session.sig_mask i)
      → IsCollecting c s r
      → r.session.acks < s.threshold_ack
      → IsConsistent c s (after_ack m i r g)
  after_ack-IsConsistent m i r g h missing =
      step-IsConsistent c s (Session.deliver (some m)) r (after_ack m i r g)
        (step_good_ack m i r g h missing) h.consistent

  witness_acks-passes :
      (m : Message c) (q : Session.Run c)
      → leb q.session.config.threshold_ack q.session.acks ≡ true
      → Session.verify_threshold_witnesses c q.session.config
          (Session.witness_message c m q.session)
        ≡ Session.passes
      → Session.witness_acks c m q ≡ Session.broadcast c (Session.witness_message c m q.session) q
  unfolding Session.witness_acks
  witness_acks-passes m q reached ok_ = ground arith

  witness_acks-below :
      (m : Message c) (q : Session.Run c)
      → leb q.session.config.threshold_ack q.session.acks ≡ false
      → Session.witness_acks c m q ≡ q
  unfolding Session.witness_acks
  witness_acks-below m q below = ground arith

  module _ (m : Message c) (i : ℕ) (r : Session.Run c) (g : IsGoodAck c s m r.session.sig_mask i)
      (h : IsCollecting c s r) (missing : r.session.acks < s.threshold_ack) where
    counted : Session.Session c
    counted = Session.count_ack c m i g.key r.session

    -- The threshold that the last acknowledgement reaches is met by the mask.
    witness_passes :
        s.threshold_ack ≤ suc r.session.acks
        → Session.verify_threshold_witnesses c s (Session.witness_message c m counted)
          ≡ Session.passes
    unfolding counted Session.verify_threshold_witnesses Session.witness_message Session.count_ack
    witness_passes reached =
        let v = count_ack-Verifies m i r.session g h.aggregated in
        let k = after_ack-IsConsistent m i r g h missing in
        let same = session-witness_acks m (record r { session = counted }) in
        ground (
          arith,
          g.topic,
          k.counted,
          k.fits,
          ap (λ (x : Session.Session c). x.sig_mask) same,
          ap (λ (x : Session.Session c). x.acks) same,
          signers-eq (length s.public_keys) (set_bit r.session.sig_mask i),
        )

    acked : Session.Run c
    acked = record r { session = counted }

    -- The acknowledgement that reaches the threshold sends the witnessed message, and no other.
    after_ack-last :
        s.threshold_ack ≤ suc r.session.acks
        → after_ack m i r g ≡ Session.broadcast c (Session.witness_message c m counted) acked
    unfolding counted acked Session.count_ack
    after_ack-last reached = witness_acks-passes m acked (ground (arith, h.consistent.same)) (
        subst
          (λ f.
            Session.verify_threshold_witnesses c f (Session.witness_message c m counted)
            ≡ Session.passes)
          (sym h.consistent.same) (witness_passes reached))

    after_ack-below : suc r.session.acks < s.threshold_ack → after_ack m i r g ≡ acked
    unfolding counted acked Session.count_ack
    after_ack-below below = witness_acks-below m acked (ground (arith, h.consistent.same))

    after_ack-free : (after_ack m i r g).mutex_held ≡ false
    unfolding acked
    after_ack-free = elim (Bool-cases (leb s.threshold_ack (suc r.session.acks))) [
      | inl reached ↦ rw (after_ack-last (ground arith)) h.free
      | inr below ↦ rw (after_ack-below (ground arith)) h.free
    ]

    pub after_ack-HasWitness :
        s.threshold_ack ≤ suc r.session.acks → HasWitness c s (after_ack m i r g)
    unfolding Session.witness_message
    after_ack-HasWitness reached = rw (after_ack-last reached) (record {
      message = Session.witness_message c m counted;
      sent = inl refl;
      is_prepared = refl;
      topic = g.topic;
      passes = witness_passes reached;
    })

    pub after_ack-acks : (after_ack m i r g).session.acks ≡ suc r.session.acks
    unfolding Session.count_ack
    after_ack-acks =
        ap (λ (x : Session.Session c). x.acks) (session-witness_acks m (record r { session = _ }))

    pub after_ack-sig_mask : (after_ack m i r g).session.sig_mask ≡ set_bit r.session.sig_mask i
    unfolding Session.count_ack
    after_ack-sig_mask =
        ap (λ (x : Session.Session c). x.sig_mask)
          (session-witness_acks m (record r { session = _ }))

    pub after_ack-IsCollecting : IsCollecting c s (after_ack m i r g)
    after_ack-IsCollecting = record {
      consistent = after_ack-IsConsistent m i r g h missing;
      free = after_ack-free;
      aggregated = inr (
          subst (Verifies c s) (sym (session-witness_acks m (record r { session = _ })))
            (count_ack-Verifies m i r.session g h.aggregated));
    }
