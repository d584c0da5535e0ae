-- ===== src/Consensus/Session/Blocking.antt =====
-- How a session of consensus/session/tlc.go comes to a standstill, and when it does not crash.
use relayer.Base.{
  ℕ, zero, suc, ◌≤◌, ◌<◌, List, [], ◌∷◌, Option, none, some, true, false, Outcome, ok, panic,
  index_out_of_range, ◌>>=◌, ◌≡◌, refl, inl, inr, leb, if◌then◌else◌, subst, arith, sym, Bool-cases,
  length, get_elem?, >>=-eq-ok, if_pos, negative_bit_index, ◌==◌, Panic,
}
use relayer.Base.Int.{ℤ, pos, negsuc}
use relayer.Consensus.Mask.{bit}
use relayer.Consensus.Mask.Bits.{bit_outside}
use relayer.Consensus.Message.{Crypto, Message, MsgType, announce, prepare, prepared, unknown}
use relayer.Consensus.Session
use relayer.Consensus.Session.Prepare.{
  IsAwaited, ack_verifies, handle_prepare-cases, verify_ack_signature-eq, waits, ignored, refused,
  counts,
}
use relayer.Consensus.Session.Steps.{
  step-cases, idle, takes_prepare, takes_prepared, takes_announce, loses_receiver, is_done,
  AllEvents, run_inv, all-Unit,
}
use relayer.Consensus.Session.Invariant.{prepared_sent, IsConsistent}

get_elem?-outside : {A : Type 0} (xs : List A) (i : ℕ) → length xs ≤ i → get_elem? xs i ≡ none
get_elem?-outside [] i h = refl
get_elem?-outside (x ∷ xs) zero h = absurd (omega arith)
get_elem?-outside (x ∷ xs) (suc i) h = get_elem?-outside xs i (omega arith)

module _ (c : Crypto) where
  -- The mutex is held, and nothing that it guards has changed since `r`.
  pub record IsFrozen (r r' : Session.Run c) : Type 0 where
    pub held : r'.mutex_held ≡ true
    pub session : r'.session ≡ r.session
    pub agreed : r'.agreed ≡ r.agreed
    pub sent : prepared_sent c r'.sent ≡ prepared_sent c r.sent

  step-IsFrozen :
      (r : Session.Run c) (e : Session.Event c) (q q' : Session.Run c)
      → Session.step c e q ≡ ok q'
      → IsFrozen r q
      → IsFrozen r q'
  unfolding Session.handle_prepared Session.tell_agreement Session.handle_announce prepared_sent
  step-IsFrozen r e q q' eq h = elim (step-cases c e q q' eq) [
    | idle same ↦ rw same h
    | takes_prepare m _ _ _ done ↦ elim (handle_prepare-cases c m q q' done) [
      | waits _ same ↦ rw same (ground arith)
      | ignored _ same ↦ rw same h
      | refused i key a _ same ↦ absurd (ground (arith, a.free))
      | counts i key a _ same ↦ absurd (ground (arith, a.free))
    ]
    | takes_prepared m _ _ _ same ↦ rw same (ground arith)
    | takes_announce m _ _ _ same ↦ rw same (ground arith)
    | loses_receiver _ same ↦ rw same (ground arith)
    | is_done _ same ↦ rw same (ground arith)
  ]

  run-IsFrozen :
      (es : List (Session.Event c)) (r r' : Session.Run c)
      → r.mutex_held ≡ true
      → Session.run c es r ≡ ok r'
      → IsFrozen r r'
  run-IsFrozen es r r' held e =
      run_inv c (λ _. Unit {0}) (IsFrozen r) (λ x q q' _. step-IsFrozen r x q q') es r r'
        (all-Unit c es) e (record { held = held; session = refl; agreed = refl; sent = refl })

  refuse_ack :
      (m : Message c) (r : Session.Run c) (i : ℕ) (key : c.PublicKey)
      → IsAwaited c m r i key
      → ack_verifies c r.session.config m i key ≡ false
      → Session.handle_prepare c m r ≡ ok (record r { mutex_held = true })
  unfolding Session.handle_prepare Session.check_sender Session.take_ack
      Session.verify_ack_signature Session.bit_index
  refuse_ack m r i key a bad = ground (arith, a.free, a.missing, a.from, a.first, a.known)

  refuse_step :
      (m : Message c) (r : Session.Run c) (i : ℕ) (key : c.PublicKey)
      → m.bridge_event_hash ≡ r.session.config.topic
      → m.msg_type ≡ prepare
      → IsAwaited c m r i key
      → ack_verifies c r.session.config m i key ≡ false
      → Session.step c (Session.deliver (some m)) r ≡ ok (record r { mutex_held = true })
  unfolding Session.step Session.handle Session.dispatch
  refuse_step m r i key topic t a bad = ground (arith, refuse_ack m r i key a bad)

  -- One acknowledgement with a bad signature, from a node that has a key and whose
  -- acknowledgement is still awaited, leaves the mutex held, so that it ends the session: whatever
  -- happens afterwards, no acknowledgement is counted, no witnessed message is sent, and no
  -- agreement is told that was not told before.
  pub bad_ack_freezes :
      (m : Message c) (r r' : Session.Run c) (i : ℕ) (key : c.PublicKey)
      (es : List (Session.Event c))
      → m.bridge_event_hash ≡ r.session.config.topic
      → m.msg_type ≡ prepare
      → IsAwaited c m r i key
      → ack_verifies c r.session.config m i key ≡ false
      → Session.run c (Session.deliver (some m) ∷ es) r ≡ ok r'
      → IsFrozen r r'
  unfolding Session.run
  bad_ack_freezes m r r' i key es topic t a bad e =
      let (q, e₁, e₂) = >>=-eq-ok (Session.step c (Session.deliver (some m)) r) _ e in
      let same : q ≡ record r { mutex_held = true } =
        ground (arith, refuse_step m r i key topic t a bad) in
      let f = run-IsFrozen es q r' (ground arith) e₂ in
      record {
        held = f.held;
        session = ground (arith, f.session);
        agreed = ground (arith, f.agreed);
        sent = ground (arith, f.sent);
      }

  -- A message that cannot crash a node: it was decoded, and its sender has a key.
  abbrev pub IsHarmless : Session.Config c → Session.Event c → Type 0
  IsHarmless s (Session.deliver none) = ⊥
  IsHarmless s (Session.deliver (some m)) =
      (i : ℕ) × (m.source ≡ pos i) × (i < length s.public_keys)
  IsHarmless s Session.receiver_gone = Unit {0}
  IsHarmless s Session.context_done = Unit {0}

  get_elem?-total :
      {A : Type 0} (xs : List A) (i : ℕ) → i < length xs → (x : A) × (get_elem? xs i ≡ some x)
  get_elem?-total [] i h = absurd (omega arith)
  get_elem?-total (x ∷ xs) zero h = (x, refl)
  get_elem?-total (x ∷ xs) (suc i) h = get_elem?-total xs i (omega arith)

  abbrev pub Returns : Outcome (Session.Run c) → Type 0
  Returns o = (r' : Session.Run c) × (o ≡ ok r')

  Returns-bind :
      {A : Type 0} {m : Outcome A} (a : A) (f : A → Outcome (Session.Run c))
      → m ≡ ok a
      → Returns (f a)
      → Returns (m >>= f)
  Returns-bind a f e h = rw e h

  take_ack_total :
      (m : Message c) (r : Session.Run c) (i : ℕ)
      → m.source ≡ pos i
      → i < length r.session.config.public_keys
      → Returns (Session.take_ack c m r)
  unfolding Session.take_ack Session.bit_index Session.key_of
  take_ack_total m r i from inside =
      let (key, found) = get_elem?-total r.session.config.public_keys i inside in
      let at_ : Session.bit_index m.source ≡ ok i = rw from in
      let known : Session.key_of c r.session.config i ≡ ok key = ground arith in
      Returns-bind _ _ (verify_ack_signature-eq c r.session.config m i key at_ known)
        (Returns-bind i _ at_ (Returns-bind key _ known (_, refl)))

  handle_prepare_total :
      (m : Message c) (r : Session.Run c) (i : ℕ)
      → m.source ≡ pos i
      → i < length r.session.config.public_keys
      → Returns (Session.handle_prepare c m r)
  unfolding Session.handle_prepare Session.check_sender Session.bit_index
  handle_prepare_total m r i from inside = elim (Bool-cases r.mutex_held) [
    | inl held ↦ (Session.get_stuck c r, ground arith)
    | inr free ↦ elim (Bool-cases (leb r.session.config.threshold_ack r.session.acks)) [
      | inl full ↦ (r, ground arith)
      | inr more ↦ elim (Bool-cases (bit r.session.sig_mask i == 0)) [
        | inl first ↦ let (r', e) = take_ack_total m r i from inside in (r', ground arith)
        | inr again ↦ (r, ground arith)
      ]
    ]
  ]

  dispatch_total :
      (t : MsgType) (m : Message c) (r : Session.Run c) (i : ℕ)
      → m.source ≡ pos i
      → i < length r.session.config.public_keys
      → Returns (Session.dispatch c t m r)
  unfolding Session.dispatch
  dispatch_total prepare m r i from inside = handle_prepare_total m r i from inside
  dispatch_total prepared m r i from inside = (_, refl)
  dispatch_total announce m r i from inside = (_, refl)
  dispatch_total (unknown n) m r i from inside = (_, refl)

  step_total :
      (e : Session.Event c) (r : Session.Run c)
      → IsHarmless r.session.config e
      → Returns (Session.step c e r)
  unfolding Session.step Session.handle
  step_total (Session.deliver none) r h = absurd h
  step_total (Session.deliver (some m)) r (i, from, inside) =
      elim (c.same_topic m.bridge_event_hash r.session.config.topic) [
        | yes same ↦ rw (if_pos _ same) (dispatch_total m.msg_type m r i from inside)
        | no other ↦ (r, ground arith)
      ]
  step_total Session.receiver_gone r h = (_, refl)
  step_total Session.context_done r h = (_, refl)

  config-step :
      (e : Session.Event c) (r r' : Session.Run c)
      → Session.step c e r ≡ ok r'
      → r'.session.config ≡ r.session.config
  unfolding Session.handle_prepared Session.tell_agreement Session.handle_announce
      Session.witness_acks Session.count_ack
  config-step e r r' eq = elim (step-cases c e r r' eq) [
    | idle same ↦ rw same refl
    | takes_prepare m _ _ _ done ↦ elim (handle_prepare-cases c m r r' done) [
      | waits _ same ↦ rw same refl
      | ignored _ same ↦ rw same refl
      | refused i key a _ same ↦ rw same refl
      | counts i key a _ same ↦ rw same (ground arith)
    ]
    | takes_prepared m _ _ _ same ↦ rw same (ground arith)
    | takes_announce m _ _ _ same ↦ rw same refl
    | loses_receiver _ same ↦ rw same refl
    | is_done _ same ↦ rw same refl
  ]

  -- A session whose every message was decoded, and comes from a node that has a key, does not
  -- crash, whatever the messages say and in whatever order they come.
  pub run_total :
      (es : List (Session.Event c)) (r : Session.Run c)
      → AllEvents c (IsHarmless r.session.config) es
      → Returns (Session.run c es r)
  unfolding Session.run
  run_total [] r h = (r, refl)
  run_total (e ∷ es) r h =
      let (r₁, e₁) = step_total e r h.0 in
      Returns-bind r₁ _ e₁ (
        run_total es r₁
          (subst (λ f. AllEvents c (IsHarmless f) es) (sym (config-step e r r₁ e₁)) h.1))

  -- A sender for whom the handler indexes out of range.
  unfoldable pub bad_source : Session.Config c → ℤ → Option Panic
  bad_source s (negsuc n) = some negative_bit_index
  bad_source s (pos i) = if leb (length s.public_keys) i then some index_out_of_range else none

  -- An acknowledgement for the session's topic whose sender is negative or has no key crashes the
  -- node, as long as the session is consistent, its mutex is free and its threshold not reached.
  pub bad_source_panics :
      (s : Session.Config c) (r : Session.Run c) (m : Message c) (p : Panic)
      → IsConsistent c s r
      → m.bridge_event_hash ≡ s.topic
      → m.msg_type ≡ prepare
      → r.mutex_held ≡ false
      → r.session.acks < s.threshold_ack
      → bad_source s m.source ≡ some p
      → Session.step c (Session.deliver (some m)) r ≡ panic p
  unfolding Session.step Session.handle Session.dispatch Session.handle_prepare Session.check_sender
      Session.bit_index Session.take_ack Session.verify_ack_signature Session.key_of bad_source
  bad_source_panics s r m p h topic t free missing bad = by_source m.source refl
    where
      by_source : (z : ℤ) → m.source ≡ z → Session.step c (Session.deliver (some m)) r ≡ panic p
      by_source (negsuc n) from = ground (arith, h.same)
      by_source (pos i) from = ground (
        arith,
        h.same,
        get_elem?-outside s.public_keys i,
        bit_outside (length s.public_keys) i r.session.sig_mask,
        h.fits,
      )
