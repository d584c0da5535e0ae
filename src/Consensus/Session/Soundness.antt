-- ===== src/Consensus/Session/Soundness.antt =====
-- Why a session of consensus/session/tlc.go may count an acknowledgement, send the witnessed
-- message or tell the agreement: each rests on a message that was delivered and verified.
use relayer.Base.{
  In, ℕ, List, [], ◌∷◌, some, true, ok, ◌≡◌, refl, ◌⊎◌, inl, inr, leb, subst, arith, ℕ_discrete,
  sym, ◌∙◌, Bool-cases, ap,
}
use relayer.Base.Int.{pos}
use relayer.Consensus.Mask.{bit}
use relayer.Consensus.Mask.Bits.{bit-set_bit_ne, bit-zero}
use relayer.Consensus.Message.{Crypto, Message, prepare, prepared}
use relayer.Consensus.Session
use relayer.Consensus.Session.Prepare.{
  IsAwaited, ack_verifies, handle_prepare-cases, waits, ignored, refused, counts,
}
use relayer.Consensus.Session.Steps.{
  Deliver, step-cases, idle, takes_prepare, takes_prepared, takes_announce, loses_receiver, is_done,
  AllEvents, run_inv,
}

module _ (c : Crypto) (s : Session.Config c) (all : List (Session.Event c)) where
  -- A message of the session's topic was delivered.
  abbrev pub Delivered : Message c → Type 0
  Delivered m = In (Session.deliver (some m)) all × (m.bridge_event_hash ≡ s.topic)

  -- Node i sent an acknowledgement that its key verifies.
  pub record Acked (i : ℕ) : Type 0 where
    pub ack : Message c
    pub key : c.PublicKey
    pub delivered : Delivered ack
    pub is_prepare : ack.msg_type ≡ prepare
    pub source : ack.source ≡ pos i
    pub known : Session.key_of c s i ≡ ok key
    pub verified : ack_verifies c s ack i key ≡ true

  -- Somebody sent a witnessed message that has enough signers and verifies.
  pub record Witnessed : Type 0 where
    pub message : Message c
    pub delivered : Delivered message
    pub is_prepared : message.msg_type ≡ prepared
    pub passes : Session.verify_threshold_witnesses c s message ≡ Session.passes

  pub record IsJustified (r : Session.Run c) : Type 0 where
    pub same : r.session.config ≡ s
    pub bits : (i : ℕ) → bit r.session.sig_mask i ≡ 1 → Acked i
    pub witness :
        (m : Message c)
        → In m r.sent
        → m.msg_type ≡ prepared
        → Session.verify_threshold_witnesses c s m ≡ Session.passes
    pub agreement : (r.agreed ≡ 0) ⊎ Witnessed

  handle_announce-IsJustified :
      (m : Message c) (r : Session.Run c)
      → IsJustified r
      → IsJustified (Session.handle_announce c m r)
  unfolding Session.handle_announce
  handle_announce-IsJustified m r h = record {
    same = h.same;
    bits = h.bits;
    witness = λ n i t. elim i [ inl here ↦ absurd (cc) | inr later ↦ h.witness n later t ];
    agreement = h.agreement;
  }

  -- What changes neither the session nor what was sent needs a reason only for an agreement.
  IsJustified-frame :
      (r r' : Session.Run c)
      → r'.session ≡ r.session
      → r'.sent ≡ r.sent
      → ((r'.agreed ≡ 0) ⊎ Witnessed)
      → IsJustified r
      → IsJustified r'
  IsJustified-frame r r' e e₂ agreement h = record {
    same = ap (λ (x : Session.Session c). x.config) e ∙ h.same;
    bits = λ i b. h.bits i (ap (λ (x : Session.Session c). bit x.sig_mask i) (sym e) ∙ b);
    witness = λ m i. h.witness m (subst (In m) e₂ i);
    agreement = agreement;
  }

  session-tell_agreement : (r : Session.Run c) → (Session.tell_agreement c r).session ≡ r.session
  unfolding Session.tell_agreement
  session-tell_agreement r = ground arith

  sent-tell_agreement : (r : Session.Run c) → (Session.tell_agreement c r).sent ≡ r.sent
  unfolding Session.tell_agreement
  sent-tell_agreement r = ground arith

  handle_prepared-IsJustified :
      (m : Message c) (r : Session.Run c)
      → Delivered m
      → m.msg_type ≡ prepared
      → IsJustified r
      → IsJustified (Session.handle_prepared c m r)
  unfolding Session.handle_prepared
  handle_prepared-IsJustified m r d t h =
      check_cases (Session.verify_threshold_witnesses c r.session.config m) refl
    where
      check_cases :
          (o : Session.Check)
          → Session.verify_threshold_witnesses c r.session.config m ≡ o
          → IsJustified (elim o [ Session.passes ↦ Session.tell_agreement c r | _ ↦ r ])
      check_cases Session.passes e =
          IsJustified-frame r (Session.tell_agreement c r) (session-tell_agreement r)
            (sent-tell_agreement r)
            (inr (record {
              message = m;
              delivered = d;
              is_prepared = t;
              passes =
                  subst (λ f. Session.verify_threshold_witnesses c f m ≡ Session.passes) h.same e;
            }))
            h
      check_cases Session.not_enough_signatures e = h
      check_cases Session.signature_mismatch e = h

  count_ack-IsJustified :
      (m : Message c) (i : ℕ) (key : c.PublicKey) (r : Session.Run c)
      → Acked i
      → IsJustified r
      → IsJustified (record r { session = Session.count_ack c m i key r.session })
  unfolding Session.count_ack
  count_ack-IsJustified m i key r a h = record {
    same = h.same;
    bits = λ j b. elim (ℕ_discrete i j) [
      | yes here ↦ subst Acked here a
      | no other ↦ h.bits j (sym (bit-set_bit_ne r.session.sig_mask i j other) ∙ b)
    ];
    witness = h.witness;
    agreement = h.agreement;
  }

  -- The witnessed message is sent only after it passed the check that its receivers make.
  witness_acks-IsJustified :
      (m : Message c) (r : Session.Run c) → IsJustified r → IsJustified (Session.witness_acks c m r)
  unfolding Session.witness_acks
  witness_acks-IsJustified m r h =
      elim (Bool-cases (leb r.session.config.threshold_ack r.session.acks)) [
        | inr below ↦ rw below h
        | inl reached ↦
            rw reached
              (check_cases (Session.verify_threshold_witnesses c r.session.config out) refl)
      ]
    where
      out : Message c
      out = Session.witness_message c m r.session

      check_cases :
          (o : Session.Check)
          → Session.verify_threshold_witnesses c r.session.config out ≡ o
          → IsJustified (elim o [
            | Session.passes ↦ Session.broadcast c out r
            | _ ↦ record r { mutex_held = true }
          ])
      check_cases Session.passes e = record {
        same = h.same;
        bits = h.bits;
        witness = λ n i t. elim i [
          | inl here ↦
              subst (λ x. Session.verify_threshold_witnesses c s x ≡ Session.passes) here
                (subst (λ f. Session.verify_threshold_witnesses c f out ≡ Session.passes) h.same e)
          | inr later ↦ h.witness n later t
        ];
        agreement = h.agreement;
      }
      check_cases Session.not_enough_signatures e = IsJustified-frame r _ refl refl h.agreement h
      check_cases Session.signature_mismatch e = IsJustified-frame r _ refl refl h.agreement h

  acked :
      (m : Message c) (r : Session.Run c) (i : ℕ) (key : c.PublicKey)
      → r.session.config ≡ s
      → Delivered m
      → m.msg_type ≡ prepare
      → IsAwaited c m r i key
      → ack_verifies c r.session.config m i key ≡ true
      → Acked i
  acked m r i key same d t a good = record {
    ack = m;
    key = key;
    delivered = d;
    is_prepare = t;
    source = a.from;
    known = subst (λ f. Session.key_of c f i ≡ ok key) same a.known;
    verified = subst (λ f. ack_verifies c f m i key ≡ true) same good;
  }

  handle_prepare-IsJustified :
      (m : Message c) (r r' : Session.Run c)
      → Delivered m
      → m.msg_type ≡ prepare
      → Session.handle_prepare c m r ≡ ok r'
      → IsJustified r
      → IsJustified r'
  handle_prepare-IsJustified m r r' d t e h = elim (handle_prepare-cases c m r r' e) [
    | waits _ eq ↦ rw eq (IsJustified-frame r _ refl refl h.agreement h)
    | ignored _ eq ↦ rw eq h
    | refused i key _ _ eq ↦ rw eq (IsJustified-frame r _ refl refl h.agreement h)
    | counts i key a good eq ↦ rw eq (
        witness_acks-IsJustified m _
          (count_ack-IsJustified m i key r (acked m r i key h.same d t a good) h))
  ]

  step-IsJustified :
      (e : Session.Event c) (r r' : Session.Run c)
      → In e all
      → Session.step c e r ≡ ok r'
      → IsJustified r
      → IsJustified r'
  step-IsJustified e r r' i eq h = elim (step-cases c e r r' eq) [
    | idle same ↦ rw same h
    | takes_prepare m at_ topic t done ↦
        handle_prepare-IsJustified m r r' (delivered m at_ topic) t done h
    | takes_prepared m at_ topic t same ↦
        rw same (handle_prepared-IsJustified m r (delivered m at_ topic) t h)
    | takes_announce m _ _ _ same ↦ rw same (handle_announce-IsJustified m r h)
    | loses_receiver _ same ↦ rw same (IsJustified-frame r _ refl refl h.agreement h)
    | is_done _ same ↦ rw same (IsJustified-frame r _ refl refl h.agreement h)
  ]
    where
      delivered :
          (m : Message c)
          → Deliver c e m
          → m.bridge_event_hash ≡ r.session.config.topic
          → Delivered m
      delivered m at_ topic =
          (subst (λ x. In x all) at_ i, topic ∙ ap (λ (f : Session.Config c). f.topic) h.same)

  start-IsJustified : c.empty_multisig_mask ≡ 0 → IsJustified (Session.start c s)
  unfolding Session.start
  start-IsJustified empty = record {
    same = refl;
    bits = λ i b. absurd (omega (arith, b, bit-zero i, ap (λ z. bit z i) empty));
    witness = λ m i t. absurd i;
    agreement = inl refl;
  }

module _ (c : Crypto) where
  all-In_from :
      (es all : List (Session.Event c))
      → ((e : Session.Event c) → In e es → In e all)
      → AllEvents c (λ e. In e all) es
  all-In_from [] all sub = tt
  all-In_from (e ∷ es) all sub = (sub e (inl refl), all-In_from es all (λ x i. sub x (inr i)))

  -- In every run of a session that does not panic, from an empty mask: each bit set in the mask
  -- stands for a message of the session's topic that was delivered and whose signature the
  -- sender's key verifies; each witnessed message sent passes the check that its receivers make;
  -- and if the agreement was told, a witnessed message was delivered that passes it.
  pub run-start-IsJustified :
      (s : Session.Config c) (es : List (Session.Event c)) (r : Session.Run c)
      → c.empty_multisig_mask ≡ 0
      → Session.run c es (Session.start c s) ≡ ok r
      → IsJustified c s es r
  run-start-IsJustified s es r empty e =
      run_inv c (λ x. In x es) (IsJustified c s es) (step-IsJustified c s es) es (Session.start c s)
        r (all-In_from es es (λ x i. i)) e (start-IsJustified c s es empty)
