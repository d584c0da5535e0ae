-- ===== src/Node/Requests/Topics.antt =====
-- What the handling of a request in node/bridge/node.go leaves of its topic.
use relayer.Base.{
  true, false, ok, >>=-eq-ok, ◌>>=◌, ◌⊎◌, sym, ap, ◌∙◌, refl, ℕ, List, Option, none, some, Bool,
  ite, ◌≡◌, ◌≢◌, arith, Option-cases, inl, inr,
}
use relayer.Base.Dict
use relayer.Consensus.Topics.{Protocol, get_topic, join_topic, leave_topic, subscribe, receive_from}
use relayer.Consensus.Topics.Joined.{IsJoined, join_topic-IsJoined, subscribe-IsJoined}
use relayer.Consensus.Topics.Methods.{leave_topic_lem}
use relayer.Node.Requests.{
  Registry, Gathering, Course, in_topic, leave_at_end, handle_oracle_request,
}
use relayer.Node.Distribute.{Ledgers}

module _ {Topic : Type 0} (dec : Discrete Topic) where
  -- The joining of a topic changes no other topic, no subscription and not the main topic.
  join_topic_lem :
      (name other : Topic) (joined : Option ℕ) (p : Protocol Topic)
      → (let after = (join_topic dec name joined p).0 in
          (name ≢ other → get_topic dec other after ≡ get_topic dec other p)
          × (after.subscriptions ≡ p.subscriptions)
          × (after.main_topic ≡ p.main_topic))
  unfolding join_topic get_topic
  join_topic_lem name other none p = ground arith
  join_topic_lem name other (some topic) p =
      ground (arith, Dict.get-put dec other name topic p.topics)

  -- Where the joining fails, the topic was not there, and nothing was done.
  join_topic-none :
      (name : Topic) (joined : Option ℕ) (p : Protocol Topic)
      → (join_topic dec name joined p).1 ≡ none
      → (get_topic dec name p ≡ none) × ((join_topic dec name joined p).0 ≡ p)
  unfolding join_topic get_topic
  join_topic-none name joined p e = ground arith

  subscribe_lem :
      (name other : Topic) (subscribed : Option ℕ) (p : Protocol Topic)
      → (let after = (subscribe dec name subscribed p).0 in
          (name ≢ other → receive_from dec other after ≡ receive_from dec other p)
          × (after.topics ≡ p.topics)
          × (after.main_topic ≡ p.main_topic))
  unfolding subscribe receive_from
  subscribe_lem name other none p = ground arith
  subscribe_lem name other (some subscription) p =
      ground (arith, Dict.get-put dec other name subscription p.subscriptions)

  -- Joining a topic, subscribing to it and leaving it takes the topic and its subscription away.
  pub leave_topic-subscribe-join_topic :
      (name other : Topic) (joined subscribed : Option ℕ) (closes : Bool) (p : Protocol Topic)
      → name ≢ p.main_topic
      → IsJoined dec p
      → (let before = (subscribe dec name subscribed (join_topic dec name joined p).0).0 in
          let after = (leave_topic dec name closes before).0 in
          (get_topic dec other after ≡ ite (dec name other) none (get_topic dec other p))
          × (receive_from dec other after ≡ ite (dec name other) none (receive_from dec other p)))
  unfolding get_topic receive_from
  leave_topic-subscribe-join_topic name other joined subscribed closes p apart h =
      let q = (join_topic dec name joined p).0 in
      let r = (subscribe dec name subscribed q).0 in
      let left =
        leave_topic_lem dec name other closes r
          (subscribe-IsJoined dec name subscribed q (join_topic-IsJoined dec name joined p h)) in
      let joins = join_topic_lem name other joined p in
      let subscribes = subscribe_lem name other subscribed q in
      (ground (arith, left, joins, subscribes), ground (arith, left, joins, subscribes))

  leave_at_end_lem :
      {Ledger : Type 0} (name : Topic) (closes : Bool) (s : Protocol Topic × Ledger × Bool)
      (next : Protocol Topic) (after : Ledger)
      → ok (leave_at_end dec name closes s) ≡ ok (next, after, true)
      → next ≡ (leave_topic dec name closes s.0).0
  unfolding leave_at_end
  leave_at_end_lem name closes (p, ledger, true) next after e = ground arith
  leave_at_end_lem name closes (p, ledger, false) next after e = absurd (ground arith)

module _ {Topic Peer Block Ledger Hash Opts Receipt : Type 0} (dec : Discrete Topic)
    (dec_peer : Discrete Peer) (k : Ledgers Block Ledger) where
  in_topic_lem :
      (name : Topic) (subscribed : Option ℕ) (registry : Registry) (rounds : List (Gathering Peer))
      (course : Course Peer Block Ledger Hash Opts Receipt) (p next : Protocol Topic)
      (ledger after : Ledger) (ended : Bool)
      → in_topic dec dec_peer k name subscribed registry rounds course p ledger
        ≡ ok (next, after, ended)
      → next ≡ (subscribe dec name subscribed p).0
  unfolding in_topic
  in_topic_lem name subscribed registry rounds course p next ledger after ended e = ground arith

  pub handle_oracle_request_joined :
      (name : Topic) (joined subscribed : Option ℕ) (closes : Bool) (registry : Registry)
      (rounds : List (Gathering Peer)) (course : Course Peer Block Ledger Hash Opts Receipt)
      (p : Protocol Topic) (ledger : Ledger) (topic : ℕ)
      → (join_topic dec name joined p).1 ≡ some topic
      → handle_oracle_request dec dec_peer k name joined subscribed closes registry rounds course p
          ledger
        ≡ (in_topic dec dec_peer k name subscribed registry rounds course
              (join_topic dec name joined p).0
              ledger
            >>= λ s. ok (leave_at_end dec name closes s))
  unfolding handle_oracle_request
  handle_oracle_request_joined name joined subscribed closes registry rounds course p ledger topic
        e =
      rw (handle_oracle_request, e) refl

  -- what is left of a request that is handled to its end
  after_request :
      (name : Topic) (joined subscribed : Option ℕ) (closes : Bool) (registry : Registry)
      (rounds : List (Gathering Peer)) (course : Course Peer Block Ledger Hash Opts Receipt)
      (p next : Protocol Topic) (ledger after : Ledger)
      → handle_oracle_request dec dec_peer k name joined subscribed closes registry rounds course p
          ledger
        ≡ ok (next, after, true)
      → ((join_topic dec name joined p).1 ≡ none) × (next ≡ (join_topic dec name joined p).0)
        ⊎ (next
            ≡ (leave_topic dec name closes
                (subscribe dec name subscribed (join_topic dec name joined p).0).0).0)
  unfolding handle_oracle_request
  after_request name joined subscribed closes registry rounds course p next ledger after e =
      elim (Option-cases (join_topic dec name joined p).1) [
        | inl failed ↦ inl (failed, ground arith)
        | inr (topic, there) ↦
            let (s, run, end) =
              >>=-eq-ok
                (in_topic dec dec_peer k name subscribed registry rounds course
                  (join_topic dec name joined p).0 ledger)
                (λ s. ok (leave_at_end dec name closes s))
                (sym (
                    handle_oracle_request_joined name joined subscribed closes registry rounds
                      course p ledger topic there)
                  ∙ e) in
            inr (
              leave_at_end_lem dec name closes s next after end
              ∙ ap (λ q. (leave_topic dec name closes q).0)
                  (in_topic_lem name subscribed registry rounds course _ s.0 ledger s.1 s.2 run))
      ]

  -- When the handling of a request returns, whatever pubsub, the registry, the other nodes and the
  -- other chain answered, and whether a protocol was run or not, then the request's topic is not
  -- joined and has no subscription, and every other topic and subscription is as before. The topic
  -- is not the node's main one.
  pub handle_oracle_request_lem :
      (name other : Topic) (joined subscribed : Option ℕ) (closes : Bool) (registry : Registry)
      (rounds : List (Gathering Peer)) (course : Course Peer Block Ledger Hash Opts Receipt)
      (p next : Protocol Topic) (ledger after : Ledger)
      → name ≢ p.main_topic
      → IsJoined dec p
      → handle_oracle_request dec dec_peer k name joined subscribed closes registry rounds course p
          ledger
        ≡ ok (next, after, true)
      → (get_topic dec other next ≡ ite (dec name other) none (get_topic dec other p))
        × (receive_from dec other next ≡ ite (dec name other) none (receive_from dec other p))
  unfolding handle_oracle_request get_topic receive_from leave_at_end
  handle_oracle_request_lem name other joined subscribed closes registry rounds course p next ledger
        after apart h e =
      elim (after_request name joined subscribed closes registry rounds course p next ledger after
        e) [
          | inr left ↦
              rw left
                (leave_topic-subscribe-join_topic dec name other joined subscribed closes p apart h)
          | inl (failed, same) ↦
              let before = join_topic-none dec name joined p failed in
              rw (same, before.1)
                (ground (arith, before.0, h.joined name), ground (arith, before.0, h.joined name))
        ]
