-- ===== src/Node/QuitHandlers/Invariant.antt =====
-- The invariant of node/bridge/quit_handlers.go: the two maps are inverse to one another, and the
-- channels in them are open.
use relayer.Base.{
  ℕ, ◌<◌, ◌∷◌, Option, none, some, true, false, ℕ_discrete, length, ◌≡◌, arith, Bool-cases,
  Option-cases, inl, inr,
}
use relayer.Base.Dict
use relayer.Node.QuitHandlers.{QuitHandlers, is_closed, register, drop_entry}

module _ {Topic : Type 0} (dec : Discrete Topic) where
  abbrev pub channel_of : QuitHandlers Topic → Topic → Option ℕ
  channel_of q t = Dict.get dec t q.handlers

  abbrev pub topic_of : QuitHandlers Topic → ℕ → Option Topic
  topic_of q c = Dict.get ℕ_discrete c q.topics

  pub record IsWellFormed (q : QuitHandlers Topic) : Type 0 where
    pub paired : (t : Topic) (c : ℕ) → channel_of q t ≡ some c → topic_of q c ≡ some t
    pub back : (t : Topic) (c : ℕ) → topic_of q c ≡ some t → channel_of q t ≡ some c
    pub live : (t : Topic) (c : ℕ) → channel_of q t ≡ some c → is_closed c q.closed ≡ false
    pub made : (t : Topic) (c : ℕ) → channel_of q t ≡ some c → c < q.next
    pub spent : (c : ℕ) → is_closed c q.closed ≡ true → c < q.next
    pub keyed_handlers : Dict.Keyed dec q.handlers
    pub keyed_topics : Dict.Keyed ℕ_discrete q.topics
    pub same_length : length q.handlers ≡ length q.topics

  module _ (q : QuitHandlers Topic) (topic : Topic) (w : IsWellFormed q) where
    pub drop_entry-IsWellFormed :
        (ch : ℕ)
        → channel_of q topic ≡ some ch
        → IsWellFormed (drop_entry dec topic ch q (ch ∷ q.closed))
    unfolding is_closed
    drop_entry-IsWellFormed ch e = record {
      paired = λ t c h. ground (
        arith,
        Dict.get-delete dec t topic q.handlers,
        Dict.get-delete ℕ_discrete c ch q.topics,
        w.paired t c,
        w.paired topic ch,
        w.back t c,
      );
      back = λ t c h. ground (
        arith,
        Dict.get-delete dec t topic q.handlers,
        Dict.get-delete ℕ_discrete c ch q.topics,
        w.back t c,
        w.back topic c,
        w.paired topic ch,
      );
      live = λ t c h. ground (
        arith,
        Dict.get-delete dec t topic q.handlers,
        w.live t c,
        w.paired t c,
        w.paired topic ch,
      );
      made = λ t c h. ground (arith, Dict.get-delete dec t topic q.handlers, w.made t c);
      spent = λ c h. ground (arith, w.spent c, w.made topic ch e);
      keyed_handlers = Dict.delete-Keyed dec topic q.handlers w.keyed_handlers;
      keyed_topics = Dict.delete-Keyed ℕ_discrete ch q.topics w.keyed_topics;
      same_length = omega (
        arith,
        w.same_length,
        Dict.length-delete dec topic q.handlers ch w.keyed_handlers e,
        Dict.length-delete ℕ_discrete ch q.topics topic w.keyed_topics (w.paired topic ch e),
      );
    }

    -- The channel that `make` gives next stands for no topic yet.
    fresh : topic_of q q.next ≡ none
    fresh = elim (Option-cases (topic_of q q.next)) [
      | inl absent ↦ absent
      | inr (t, e) ↦ absurd (omega (arith, w.made t q.next (w.back t q.next e)))
    ]

    pub register-IsWellFormed : channel_of q topic ≡ none → IsWellFormed (register dec topic q).0
    register-IsWellFormed e = record {
      paired = λ t c h. ground (
        arith,
        Dict.get-put dec t topic q.next q.handlers,
        Dict.get-put ℕ_discrete c q.next topic q.topics,
        w.paired t c,
        w.made t c,
      );
      back = λ t c h. ground (
        arith,
        Dict.get-put dec t topic q.next q.handlers,
        Dict.get-put ℕ_discrete c q.next topic q.topics,
        w.back t c,
      );
      live = λ t c h. elim (Bool-cases (is_closed c q.closed)) [
        | inr open_ ↦ open_
        | inl shut ↦
            ground (arith, Dict.get-put dec t topic q.next q.handlers, w.live t c, w.spent c shut)
      ];
      made = λ t c h. ground (arith, Dict.get-put dec t topic q.next q.handlers, w.made t c);
      spent = λ c h. omega (arith, w.spent c h);
      keyed_handlers = Dict.put-Keyed dec topic q.next q.handlers w.keyed_handlers;
      keyed_topics = Dict.put-Keyed ℕ_discrete q.next topic q.topics w.keyed_topics;
      same_length = omega (
        arith,
        w.same_length,
        Dict.length-put dec topic q.next q.handlers e,
        Dict.length-put ℕ_discrete q.next topic q.topics fresh,
      );
    }
