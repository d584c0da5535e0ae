-- ===== src/Consensus/Session/Steps.antt =====
-- The steps of a session under way (consensus/session/tlc.go) by cases, and induction on a run.
use relayer.Base.{List, [], ◌∷◌, none, some, true, false, ok, >>=-eq-ok, ◌≡◌, refl, subst, arith}
use relayer.Consensus.Message.{Crypto, Message, MsgType, announce, prepare, prepared, unknown}
use relayer.Consensus.Session

module _ (c : Crypto) where
  abbrev pub Deliver : Session.Event c → Message c → Type 0
  Deliver e m = e ≡ Session.deliver (some m)

  pub data StepCase (e : Session.Event c) (r r' : Session.Run c) : Type 0 where
    idle : r' ≡ r → StepCase e r r'
    takes_prepare :
        (m : Message c)
        → Deliver e m
        → m.bridge_event_hash ≡ r.session.config.topic
        → m.msg_type ≡ prepare
        → Session.handle_prepare c m r ≡ ok r'
        → StepCase e r r'
    takes_prepared :
        (m : Message c)
        → Deliver e m
        → m.bridge_event_hash ≡ r.session.config.topic
        → m.msg_type ≡ prepared
        → r' ≡ Session.handle_prepared c m r
        → StepCase e r r'
    takes_announce :
        (m : Message c)
        → Deliver e m
        → m.bridge_event_hash ≡ r.session.config.topic
        → m.msg_type ≡ announce
        → r' ≡ Session.handle_announce c m r
        → StepCase e r r'
    loses_receiver :
        e ≡ Session.receiver_gone → r' ≡ record r { receiver_waiting = false } → StepCase e r r'
    is_done : e ≡ Session.context_done → r' ≡ record r { cancelled = true } → StepCase e r r'

  dispatch-cases :
      (t : MsgType) (m : Message c) (r r' : Session.Run c)
      → m.msg_type ≡ t
      → m.bridge_event_hash ≡ r.session.config.topic
      → Session.dispatch c t m r ≡ ok r'
      → StepCase (Session.deliver (some m)) r r'
  unfolding Session.dispatch
  dispatch-cases prepared m r r' t same e = takes_prepared m refl same t (ground arith)
  dispatch-cases prepare m r r' t same e = takes_prepare m refl same t e
  dispatch-cases announce m r r' t same e = takes_announce m refl same t (ground arith)
  dispatch-cases (unknown n) m r r' t same e = idle (ground arith)

  pub step-cases :
      (e : Session.Event c) (r r' : Session.Run c) → Session.step c e r ≡ ok r' → StepCase e r r'
  unfolding Session.step Session.handle
  step-cases (Session.deliver none) r r' eq = cc
  step-cases (Session.deliver (some m)) r r' eq =
      elim (c.same_topic m.bridge_event_hash r.session.config.topic) [
        | yes same ↦ dispatch-cases m.msg_type m r r' refl same (ground arith)
        | no other ↦ idle (ground arith)
      ]
  step-cases Session.receiver_gone r r' eq = loses_receiver refl (ground arith)
  step-cases Session.context_done r r' eq = is_done refl (ground arith)

  abbrev pub AllEvents : (Session.Event c → Type 0) → List (Session.Event c) → Type 0
  AllEvents Q [] = Unit {0}
  AllEvents Q (e ∷ es) = Q e × AllEvents Q es

  pub all-Unit : (es : List (Session.Event c)) → AllEvents (λ _. Unit {0}) es
  all-Unit [] = tt
  all-Unit (e ∷ es) = (tt, all-Unit es)

  -- What every step keeps, on the events of the run, the run keeps.
  pub run_inv :
      (Q : Session.Event c → Type 0) (P : Session.Run c → Type 0)
      → ((e : Session.Event c) (r r' : Session.Run c)
          → Q e
          → Session.step c e r ≡ ok r'
          → P r
          → P r')
      → (es : List (Session.Event c)) (r r' : Session.Run c) → AllEvents Q es
      → Session.run c es r ≡ ok r'
      → P r
      → P r'
  unfolding Session.run
  run_inv Q P keep [] r r' q e h = subst P (ground arith) h
  run_inv Q P keep (x ∷ es) r r' q e h =
      let (r₁, e₁, e₂) = >>=-eq-ok (Session.step c x r) _ e in
      run_inv Q P keep es r₁ r' q.1 e₂ (keep x r r₁ q.0 e₁ h)
