-- ===== src/Consensus/Session/Invariant.antt =====
-- The invariant of a session under way (consensus/session/tlc.go), kept by every step.
use relayer.Base.{
  ℕ, zero, suc, ◌+◌, ◌^◌, ◌≤◌, ◌<◌, List, [], ◌∷◌, some, true, if◌then◌else◌, get_elem?, Outcome,
  ok, length, ◌≡◌, refl, ◌⊎◌, inl, arith,
}
use native.Mathlib.Nat.{pow-suc}
use relayer.Consensus.Mask.Bits.{ones_below, ones_below-set_bit, ones_below-zero, set_bit-lt}
use relayer.Consensus.Message.{Crypto, Message, prepared}
use relayer.Consensus.Session
use relayer.Consensus.Session.Steps.{
  step-cases, idle, takes_prepare, takes_prepared, takes_announce, loses_receiver, is_done, run_inv,
  all-Unit,
}
use relayer.Consensus.Session.Prepare.{
  IsAwaited, handle_prepare-cases, waits, ignored, refused, counts,
}

get_elem?-some-lt :
    {A : Type 0} (xs : List A) (i : ℕ) {x : A} → get_elem? xs i ≡ some x → i < length xs
get_elem?-some-lt [] i e = absurd (ground arith)
get_elem?-some-lt (x ∷ xs) zero e = omega arith
get_elem?-some-lt (x ∷ xs) (suc i) e = omega (arith, get_elem?-some-lt xs i e)

two-pow-pos : (n : ℕ) → 0 < 2 ^ n
two-pow-pos zero = omega arith
two-pow-pos (suc n) = omega (arith, pow-suc 2 n, two-pow-pos n)

module _ (c : Crypto) where
  -- The messages of type `Prepared` among those broadcast.
  unfoldable pub prepared_sent : List (Message c) → ℕ
  prepared_sent [] = 0
  prepared_sent (m ∷ ms) = (elim m.msg_type [ prepared ↦ 1 | _ ↦ 0 ]) + prepared_sent ms

  abbrev pub waiting : Session.Run c → ℕ
  waiting r = if r.receiver_waiting then 1 else 0

  -- Of a run with the fixed fields `s`.
  pub record IsConsistent (s : Session.Config c) (r : Session.Run c) : Type 0 where
    pub same : r.session.config ≡ s
    -- the mask has a bit for every counted acknowledgement, and only bits of nodes with a key
    pub counted : r.session.acks ≡ ones_below (length s.public_keys) r.session.sig_mask
    pub fits : r.session.sig_mask < 2 ^ length s.public_keys
    pub bounded : r.session.acks ≤ s.threshold_ack
    -- the agreement is told at most once, and then the session is over
    pub told_once : r.agreed + waiting r ≤ 1
    pub told_last : (r.agreed ≡ 0) ⊎ (r.cancelled ≡ true)
    -- the witnessed message is sent at most once, and not before the threshold
    pub sent_once : prepared_sent r.sent ≤ 1
    pub sent_late : (prepared_sent r.sent ≡ 0) ⊎ (s.threshold_ack ≤ r.session.acks)

  module _ (s : Session.Config c) where
    abbrev pub Keeps : Session.Run c → Outcome (Session.Run c) → Type 0
    Keeps r o = (r' : Session.Run c) → o ≡ ok r' → IsConsistent s r → IsConsistent s r'

    tell_agreement-IsConsistent :
        (r : Session.Run c) → IsConsistent s r → IsConsistent s (Session.tell_agreement c r)
    unfolding Session.tell_agreement
    tell_agreement-IsConsistent r h = ground arith

    handle_prepared-IsConsistent :
        (m : Message c) (r : Session.Run c)
        → IsConsistent s r
        → IsConsistent s (Session.handle_prepared c m r)
    unfolding Session.handle_prepared
    handle_prepared-IsConsistent m r h = ground (arith, tell_agreement-IsConsistent r h)

    handle_announce-IsConsistent :
        (m : Message c) (r : Session.Run c)
        → IsConsistent s r
        → IsConsistent s (Session.handle_announce c m r)
    unfolding Session.handle_announce prepared_sent
    handle_announce-IsConsistent m r h = ground arith

    witness_acks-IsConsistent :
        (m : Message c) (i : ℕ) (key : c.PublicKey) (r : Session.Run c)
        → IsAwaited c m r i key
        → IsConsistent s r
        → IsConsistent s (
            Session.witness_acks c m (record r { session = Session.count_ack c m i key r.session }))
    unfolding Session.witness_acks Session.count_ack Session.witness_message Session.key_of
        prepared_sent
    witness_acks-IsConsistent m i key r a h =
        let n = length s.public_keys in
        let inside : i < n =
          ground (arith, get_elem?-some-lt s.public_keys i {x = key}, a.known, h.same) in
        let grown = ones_below-set_bit n i r.session.sig_mask inside in
        let fits = set_bit-lt n i r.session.sig_mask inside h.fits in
        ground (arith, grown, fits, a.first, a.missing)

    handle_prepare-IsConsistent :
        (m : Message c) (r : Session.Run c) → Keeps r (Session.handle_prepare c m r)
    handle_prepare-IsConsistent m r r' e h = elim (handle_prepare-cases c m r r' e) [
      | waits held eq ↦ rw eq (ground arith)
      | ignored free eq ↦ rw eq h
      | refused i key a bad eq ↦ rw eq (ground arith)
      | counts i key a good eq ↦ rw eq (witness_acks-IsConsistent m i key r a h)
    ]

    pub step-IsConsistent : (e : Session.Event c) (r : Session.Run c) → Keeps r (Session.step c e r)
    step-IsConsistent e r r' eq h = elim (step-cases c e r r' eq) [
      | idle same ↦ rw same h
      | takes_prepare m _ _ _ done ↦ handle_prepare-IsConsistent m r r' done h
      | takes_prepared m _ _ _ same ↦ rw same (handle_prepared-IsConsistent m r h)
      | takes_announce m _ _ _ same ↦ rw same (handle_announce-IsConsistent m r h)
      | loses_receiver _ same ↦ rw same (ground arith)
      | is_done _ same ↦ rw same (ground arith)
    ]

    pub run-IsConsistent :
        (es : List (Session.Event c)) (r r' : Session.Run c)
        → Session.run c es r ≡ ok r'
        → IsConsistent s r
        → IsConsistent s r'
    run-IsConsistent es r r' =
        run_inv c (λ _. Unit {0}) (IsConsistent s) (λ e q q' _ eq h. step-IsConsistent e q q' eq h)
          es r r' (all-Unit c es)

    pub start-IsConsistent : c.empty_multisig_mask ≡ 0 → IsConsistent s (Session.start c s)
    unfolding Session.start prepared_sent
    start-IsConsistent e = record {
      same = refl;
      counted = rw (e, ones_below-zero) refl;
      fits = rw e (two-pow-pos (length s.public_keys));
      bounded = omega arith;
      told_once = omega arith;
      told_last = inl refl;
      sent_once = omega arith;
      sent_late = inl refl;
    }

    -- From the start of a session, with an empty mask, every run that does not panic keeps the
    -- invariant: the session's fixed fields stay; there are as many acknowledgements as bits in
    -- the mask, all of nodes with a key, and never more than the threshold; the agreement is told
    -- at most once, and then the session is over; and the witnessed message is sent at most once,
    -- and not below the threshold.
    pub run-start-IsConsistent :
        (es : List (Session.Event c)) (r : Session.Run c)
        → c.empty_multisig_mask ≡ 0
        → Session.run c es (Session.start c s) ≡ ok r
        → IsConsistent s r
    run-start-IsConsistent es r empty e =
        run-IsConsistent es (Session.start c s) r e (start-IsConsistent empty)
