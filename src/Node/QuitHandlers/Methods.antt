-- ===== src/Node/QuitHandlers/Methods.antt =====
-- What the methods of node/bridge/quit_handlers.go do on a well-formed registry, and on any
-- history of calls.
use relayer.Base.{
  is_some, ℕ, ite, List, [], ◌∷◌, Option, none, some, true, false, Outcome, ok, ◌≡◌, refl, arith,
  ◌≢◌, ◌↔◌, ◌⊎◌, Option-cases, inl, inr, ◌>>=◌,
}
use relayer.Base.Dict
use relayer.Node.QuitHandlers.{
  QuitHandlers, is_closed, close, register, drop_entry, new_quit_handlers, add_quit_handler,
  remove_quit_handler, remove_topic_handler, debug_map_length,
}
use relayer.Node.QuitHandlers.Invariant.{
  channel_of, topic_of, IsWellFormed, drop_entry-IsWellFormed, register-IsWellFormed,
}

module _ {Topic : Type 0} (dec : Discrete Topic) where
  close_open :
      (ch : ℕ) (closed : List ℕ) → is_closed ch closed ≡ false → close ch closed ≡ ok (ch ∷ closed)
  unfolding close
  close_open ch closed h = ground arith

  -- Of the open channels exactly `ch` was closed on the way from `q` to `q'`.
  abbrev pub ClosesOnly : Option ℕ → QuitHandlers Topic → QuitHandlers Topic → Type 0
  ClosesOnly o q q' =
      (c : ℕ) → (is_closed c q'.closed ≡ true) ↔ ((is_closed c q.closed ≡ true) ⊎ (o ≡ some c))

  module _ (q : QuitHandlers Topic) (topic : Topic) (w : IsWellFormed dec q) where
    drop_closes : (ch : ℕ) → ClosesOnly (some ch) q (drop_entry dec topic ch q (ch ∷ q.closed))
    unfolding is_closed
    drop_closes ch c = ground arith

    dropped : (ch : ℕ) → channel_of dec (drop_entry dec topic ch q (ch ∷ q.closed)) topic ≡ none
    dropped ch = ground (arith, Dict.get-delete dec topic topic q.handlers)

    -- the state after `AddQuitHandler` closed the old channel `ch`
    abbrev replaced : ℕ → QuitHandlers Topic
    replaced ch = (register dec topic (drop_entry dec topic ch q (ch ∷ q.closed))).0

    add_present :
        (ch : ℕ)
        → channel_of dec q topic ≡ some ch
        → add_quit_handler dec topic q ≡ ok (replaced ch, q.next)
    unfolding add_quit_handler
    add_present ch e = ground (
      arith,
      close_open ch q.closed (w.live topic ch e),
      Dict.put-delete dec topic q.next q.handlers,
    )

    -- On a well-formed registry `AddQuitHandler` does not panic. It returns the channel that it
    -- made, which becomes the topic's, while other topics keep theirs; the channel that the topic
    -- had, if any, is closed and no other is; and the registry stays well formed.
    pub add_quit_handler_lem :
        (q' : QuitHandlers Topic) × (add_quit_handler dec topic q ≡ ok (q', q.next))
        × IsWellFormed dec q'
        × ((t : Topic) → channel_of dec q' t ≡ ite (dec topic t) (some q.next) (channel_of dec q t))
        × ClosesOnly (channel_of dec q topic) q q'
    unfolding add_quit_handler
    add_quit_handler_lem = elim (Option-cases (channel_of dec q topic)) [
      | inl e ↦ (
        (register dec topic q).0,
        ground arith,
        register-IsWellFormed dec q topic w e,
        (λ t. Dict.get-put dec t topic q.next q.handlers),
        λ c. ground arith,
      )
      | inr (old, e) ↦ (
        replaced old,
        add_present old e,
        register-IsWellFormed dec _ topic (drop_entry-IsWellFormed dec q topic w old e)
            (dropped old),
        (λ t. ground (
          arith,
          Dict.get-put dec t topic q.next (Dict.delete dec topic q.handlers),
          Dict.get-delete dec t topic q.handlers,
        )),
        rw e (drop_closes old),
      )
    ]

    -- On a well-formed registry `RemoveTopicHandler` does not panic. It answers whether the topic
    -- had a channel; afterwards the topic has none, while other topics keep theirs; exactly the
    -- topic's channel was closed; and the registry stays well formed.
    pub remove_topic_handler_lem :
        (q' : QuitHandlers Topic) × (remove_topic_handler dec topic q
          ≡ ok (q', is_some (channel_of dec q topic)))
        × IsWellFormed dec q'
        × ((t : Topic) → channel_of dec q' t ≡ ite (dec topic t) none (channel_of dec q t))
        × ClosesOnly (channel_of dec q topic) q q'
    unfolding remove_topic_handler
    remove_topic_handler_lem = elim (Option-cases (channel_of dec q topic)) [
      | inl e ↦ (q, ground arith, w, (λ t. ground arith), λ c. ground arith)
      | inr (old, e) ↦ (
        drop_entry dec topic old q (old ∷ q.closed),
        ground (arith, close_open old q.closed (w.live topic old e)),
        drop_entry-IsWellFormed dec q topic w old e,
        (λ t. Dict.get-delete dec t topic q.handlers),
        rw e (drop_closes old),
      )
    ]

  -- the channel, if it stands for a topic
  abbrev pub registered : QuitHandlers Topic → ℕ → Option ℕ
  registered q ch = elim (topic_of dec q ch) [ some t ↦ some ch | none ↦ none ]

  module _ (q : QuitHandlers Topic) (ch : ℕ) (w : IsWellFormed dec q) where
    remove_present :
        (topic : Topic)
        → topic_of dec q ch ≡ some topic
        → remove_quit_handler dec ch q ≡ ok (drop_entry dec topic ch q (ch ∷ q.closed), some topic)
    unfolding remove_quit_handler
    remove_present topic e =
        ground
          (arith, w.back topic ch e, close_open ch q.closed (w.live topic ch (w.back topic ch e)))

    -- On a well-formed registry `RemoveQuitHandler` does not panic. It returns the topic that the
    -- channel stands for, if any; afterwards every topic whose channel was another keeps it and
    -- none has this one; the channel was closed if it stood for a topic, and no other was; and
    -- the registry stays well formed.
    pub remove_quit_handler_lem :
        (q' : QuitHandlers Topic) × (remove_quit_handler dec ch q ≡ ok (q', topic_of dec q ch))
        × IsWellFormed dec q'
        × ((t : Topic) (c : ℕ)
            → (channel_of dec q' t ≡ some c) ↔ ((channel_of dec q t ≡ some c) × (c ≢ ch)))
        × ClosesOnly (registered q ch) q q'
    unfolding remove_quit_handler
    remove_quit_handler_lem = elim (Option-cases (topic_of dec q ch)) [
      | inl e ↦ (
        q,
        ground arith,
        w,
        (λ t c. (λ h. (h, λ c≡ch. ground (arith, w.paired t c h)), λ h. h.0)),
        λ c. ground arith,
      )
      | inr (topic, e) ↦ (
        drop_entry dec topic ch q (ch ∷ q.closed),
        rw e (remove_present topic e),
        drop_entry-IsWellFormed dec q topic w ch (w.back topic ch e),
        (λ t c.
            ground
              (arith, Dict.get-delete dec t topic q.handlers, w.back topic ch e, w.paired t c)),
        ground (arith, e, drop_closes q topic w ch),
      )
    ]

  pub data Call : Type 0 where
    add : Topic → Call
    remove : ℕ → Call
    remove_topic : Topic → Call

  unfoldable pub call : Call → QuitHandlers Topic → Outcome (QuitHandlers Topic)
  call (add t) q = do (q', _) ← add_quit_handler dec t q; ok q'
  call (remove c) q = do (q', _) ← remove_quit_handler dec c q; ok q'
  call (remove_topic t) q = do (q', _) ← remove_topic_handler dec t q; ok q'

  unfoldable pub run : List Call → QuitHandlers Topic → Outcome (QuitHandlers Topic)
  run [] q = ok q
  run (c ∷ cs) q = do q' ← call c q; run cs q'

  call-IsWellFormed :
      (c : Call) (q : QuitHandlers Topic)
      → IsWellFormed dec q
      → (q' : QuitHandlers Topic) × (call c q ≡ ok q') × IsWellFormed dec q'
  unfolding call
  call-IsWellFormed (add t) q w =
      let (q', e, w', _, _) = add_quit_handler_lem q t w in (q', rw e, w')
  call-IsWellFormed (remove c) q w =
      let (q', e, w', _, _) = remove_quit_handler_lem q c w in (q', rw e, w')
  call-IsWellFormed (remove_topic t) q w =
      let (q', e, w', _, _) = remove_topic_handler_lem q t w in (q', rw e, w')

  run-IsWellFormed :
      (cs : List Call) (q : QuitHandlers Topic)
      → IsWellFormed dec q
      → (q' : QuitHandlers Topic) × (run cs q ≡ ok q') × IsWellFormed dec q'
  unfolding run
  run-IsWellFormed [] q w = (q, refl, w)
  run-IsWellFormed (c ∷ cs) q w =
      let (q', e, w') = call-IsWellFormed c q w in
      let (q₂, e₂, w₂) = run-IsWellFormed cs q' w' in (q₂, rw e e₂, w₂)

  pub new-IsWellFormed : IsWellFormed dec new_quit_handlers
  unfolding new_quit_handlers is_closed Dict.get
  new-IsWellFormed = record {
    paired = λ t c h. cc;
    back = λ t c h. cc;
    live = λ t c h. cc;
    made = λ t c h. absurd (ground arith);
    spent = λ c h. absurd (ground arith);
    keyed_handlers = tt;
    keyed_topics = tt;
    same_length = refl;
  }

  -- Whatever calls are made on a new registry, none panics (no channel is closed twice), the
  -- registry stays well formed, and the two lengths that `DebugMapLength` returns are equal.
  pub run-new-IsWellFormed :
      (cs : List Call)
      → (q : QuitHandlers Topic) × (run cs new_quit_handlers ≡ ok q)
        × IsWellFormed dec q
        × ((debug_map_length q).0 ≡ (debug_map_length q).1)
  unfolding debug_map_length
  run-new-IsWellFormed cs =
      let (q, e, w) = run-IsWellFormed cs new_quit_handlers new-IsWellFormed in
      (q, e, w, w.same_length)
