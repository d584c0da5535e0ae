-- ===== src/Consensus/Session/Quorum.antt =====
-- That a session of consensus/session/tlc.go reaches agreement, in the good case.
use relayer.Base.{
  ℕ, suc, ◌+◌, ◌≤◌, ◌<◌, List, [], ◌∷◌, some, false, ok, ◌≡◌, refl, ◌⊎◌, inl, inr, leb, subst,
  arith, sym, map, Bool-cases, length,
}
use relayer.Consensus.Mask.{set_bit}
use relayer.Consensus.Message.{Crypto, Message}
use relayer.Consensus.Session
use relayer.Consensus.Session.Invariant.{prepared_sent, start-IsConsistent}
use relayer.Consensus.Session.Liveness.{
  CryptoLaws, IsCollecting, IsGoodAck, HasWitness, after_ack, step_good_ack, after_ack-acks,
  after_ack-sig_mask, after_ack-HasWitness, after_ack-IsCollecting,
}

module _ (c : Crypto) where
  -- Good acknowledgements of distinct nodes, none of which has its bit in the mask.
  abbrev pub GoodAcks : Session.Config c → ℕ → List (Message c) → Type 0
  GoodAcks s mask [] = Unit {0}
  GoodAcks s mask (m ∷ ms) = (i : ℕ) × IsGoodAck c s m mask i × GoodAcks s (set_bit mask i) ms

  abbrev pub deliveries : List (Message c) → List (Session.Event c)
  deliveries = map (λ m. Session.deliver (some m))

module _ (c : Crypto) (laws : CryptoLaws c) (s : Session.Config c) where
  abbrev IsWitnessed : Session.Run c → Type 0
  IsWitnessed r = IsCollecting c s r × HasWitness c s r × (r.session.acks ≡ s.threshold_ack)

  collect :
      (ms : List (Message c)) (r : Session.Run c)
      → IsCollecting c s r
      → GoodAcks c s r.session.sig_mask ms
      → r.session.acks + length ms ≡ s.threshold_ack
      → (r.session.acks < s.threshold_ack) ⊎ HasWitness c s r
      → (r' : Session.Run c) × (Session.run c (deliveries c ms) r ≡ ok r') × IsWitnessed r'
  unfolding Session.run
  collect [] r h g e (inl below) = absurd (omega arith)
  collect [] r h g e (inr w) = (r, refl, (h, w, omega arith))
  collect (m ∷ ms) r h (i, g, gs) e before =
      let missing : r.session.acks < s.threshold_ack = omega arith in
      let r₁ = after_ack c laws s m i r g in
      let acks = after_ack-acks c laws s m i r g h missing in
      let next : (r₁.session.acks < s.threshold_ack) ⊎ HasWitness c s r₁ =
        elim (Bool-cases (leb s.threshold_ack (suc r.session.acks))) [
          | inl reached ↦ inr (after_ack-HasWitness c laws s m i r g h missing (ground arith))
          | inr below ↦ inl (ground arith)
        ] in
      rw (step_good_ack c laws s m i r g h missing) (
        collect ms r₁ (after_ack-IsCollecting c laws s m i r g h missing)
          (subst (λ z. GoodAcks c s z ms) (sym (after_ack-sig_mask c laws s m i r g h missing)) gs)
          (omega (arith, acks)) next)

  -- If the multisignatures aggregate as they should, then as many good acknowledgements of
  -- distinct nodes as the threshold asks for, in whatever order the nodes send them, bring the
  -- session to send exactly one witnessed message, which passes the check of a receiver with the
  -- same threshold; the mutex is free afterwards.
  pub quorum_witnesses :
      (ms : List (Message c))
      → GoodAcks c s 0 ms
      → length ms ≡ s.threshold_ack
      → 0 < s.threshold_ack
      → (r : Session.Run c) × (Session.run c (deliveries c ms) (Session.start c s) ≡ ok r)
        × HasWitness c s r
        × (r.mutex_held ≡ false)
        × (r.session.acks ≡ s.threshold_ack)
        × (prepared_sent c r.sent ≤ 1)
  unfolding Session.start
  quorum_witnesses ms g e positive =
      let fresh : IsCollecting c s (Session.start c s) = record {
        consistent = start-IsConsistent c s laws.empty_mask;
        free = refl;
        aggregated = inl (refl, refl, laws.empty_mask);
      } in
      let (r, done, (h, w, acks)) =
        collect ms (Session.start c s) fresh
          (subst (λ z. GoodAcks c s z ms) (sym laws.empty_mask) g) (omega arith) (inl positive) in
      (r, done, w, h.free, acks, h.consistent.sent_once)
