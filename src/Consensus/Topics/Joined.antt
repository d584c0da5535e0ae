-- ===== src/Consensus/Topics/Joined.antt =====
-- That a node of consensus/consensus.go subscribes only to topics that it has joined, and leaves
-- nothing open behind.
use relayer.Base.{
  ℕ, List, [], ◌∷◌, Option, none, some, Bool, true, false, ite, ◌≡◌, refl, ◌∙◌, ap, arith,
  Option-cases, inl, inr,
}
use relayer.Base.Dict
use relayer.Consensus.Topics.{
  Protocol, new_pub_sub_with_topic, join_topic, cancel_subscription, close_topic, leave_topic,
  disconnect_each, disconnect, subscribe,
}

module _ {Topic : Type 0} (dec : Discrete Topic) where
  -- Each subscription is to a topic that is joined.
  pub record IsJoined (c : Protocol Topic) : Type 0 where
    pub joined :
        (name : Topic)
        → Dict.get dec name c.topics ≡ none
        → Dict.get dec name c.subscriptions ≡ none
    pub keyed_topics : Dict.Keyed dec c.topics
    pub keyed_subscriptions : Dict.Keyed dec c.subscriptions

  pub data Call : Type 0 where
    joins : Topic → Option ℕ → Call
    leaves : Topic → Bool → Call
    subscribes : Topic → Option ℕ → Call
    disconnects : Call

  unfoldable pub call : Call → Protocol Topic → Protocol Topic
  call (joins name joined) c = (join_topic dec name joined c).0
  call (leaves name closes) c = (leave_topic dec name closes c).0
  call (subscribes name subscribed) c = (subscribe dec name subscribed c).0
  call disconnects c = disconnect dec c

  unfoldable pub run : List Call → Protocol Topic → Protocol Topic
  run [] c = c
  run (x ∷ xs) c = run xs (call x c)

  get-cancel_subscription :
      (name other : Topic) (c : Protocol Topic)
      → Dict.get dec other (cancel_subscription dec name c).subscriptions
        ≡ ite (dec name other) none (Dict.get dec other c.subscriptions)
  unfolding cancel_subscription
  get-cancel_subscription name other c =
      ground (arith, Dict.get-delete dec other name c.subscriptions)

  cancel_subscription-Keyed :
      (name : Topic) (c : Protocol Topic)
      → Dict.Keyed dec c.subscriptions
      → Dict.Keyed dec (cancel_subscription dec name c).subscriptions
  unfolding cancel_subscription
  cancel_subscription-Keyed name c k = ground (arith, Dict.delete-Keyed dec name c.subscriptions k)

  topics-cancel_subscription :
      (name : Topic) (c : Protocol Topic) → (cancel_subscription dec name c).topics ≡ c.topics
  unfolding cancel_subscription
  topics-cancel_subscription name c = ground arith

  close_topic-IsJoined :
      (name : Topic) (topic : ℕ) (c : Protocol Topic)
      → IsJoined c
      → IsJoined (close_topic dec name topic (cancel_subscription dec name c))
  close_topic-IsJoined name topic c h = rw (topics-cancel_subscription name c) (record {
    joined = λ other gone. ground (
      arith,
      h.joined other,
      get-cancel_subscription name other c,
      Dict.get-delete dec other name c.topics,
    );
    keyed_topics = Dict.delete-Keyed dec name c.topics h.keyed_topics;
    keyed_subscriptions = cancel_subscription-Keyed name c h.keyed_subscriptions;
  })

  pub join_topic-IsJoined :
      (name : Topic) (joined : Option ℕ) (c : Protocol Topic)
      → IsJoined c
      → IsJoined (join_topic dec name joined c).0
  unfolding join_topic
  join_topic-IsJoined name joined c h = by_topic (Dict.get dec name c.topics) joined
    where
      put_topic : (topic : ℕ) → IsJoined (record c { topics = Dict.put dec name topic c.topics })
      put_topic topic = record {
        joined = λ other gone.
            ground (arith, h.joined other, Dict.get-put dec other name topic c.topics);
        keyed_topics = Dict.put-Keyed dec name topic c.topics h.keyed_topics;
        keyed_subscriptions = h.keyed_subscriptions;
      }

      by_topic :
          (present joined : Option ℕ)
          → IsJoined
              (elim present as (λ _. Protocol Topic × Option ℕ) [
                | some topic ↦ (c, some topic)
                | none ↦ elim joined [
                  | some topic ↦
                      (record c { topics = Dict.put dec name topic c.topics }, some topic)
                  | none ↦ (c, none)
                ]
              ]).0
      by_topic (some topic) joined = h
      by_topic none (some topic) = put_topic topic
      by_topic none none = h

  put_subscription-IsJoined :
      (name : Topic) (topic subscription : ℕ) (c : Protocol Topic)
      → Dict.get dec name c.topics ≡ some topic
      → IsJoined c
      → IsJoined (record c { subscriptions = Dict.put dec name subscription c.subscriptions })
  put_subscription-IsJoined name topic subscription c present h = record {
    joined = λ other gone.
        ground (arith, h.joined other, Dict.get-put dec other name subscription c.subscriptions);
    keyed_topics = h.keyed_topics;
    keyed_subscriptions =
        Dict.put-Keyed dec name subscription c.subscriptions h.keyed_subscriptions;
  }

  pub subscribe-IsJoined :
      (name : Topic) (subscribed : Option ℕ) (c : Protocol Topic)
      → IsJoined c
      → IsJoined (subscribe dec name subscribed c).0
  unfolding subscribe
  subscribe-IsJoined name subscribed c h = elim (Option-cases (Dict.get dec name c.topics)) [
    | inl gone ↦ rw (subscribe, gone) h
    | inr (topic, e) ↦ elim (Option-cases (Dict.get dec name c.subscriptions)) [
      | inr (subscription, e₂) ↦ rw (subscribe, e, e₂) h
      | inl none_yet ↦ rw (subscribe, e, none_yet) (by_answer topic e subscribed)
    ]
  ]
    where
      by_answer :
          (topic : ℕ)
          → Dict.get dec name c.topics ≡ some topic
          → (answer : Option ℕ)
          → IsJoined
              (elim answer as (λ _. Protocol Topic × Bool) [
                | some subscription ↦ (
                  record c { subscriptions = Dict.put dec name subscription c.subscriptions },
                  true,
                )
                | none ↦ (c, false)
              ]).0
      by_answer topic e (some subscription) =
          put_subscription-IsJoined name topic subscription c e h
      by_answer topic e none = h

  leave_topic-IsJoined :
      (name : Topic) (closes : Bool) (c : Protocol Topic)
      → IsJoined c
      → IsJoined (leave_topic dec name closes c).0
  unfolding leave_topic
  leave_topic-IsJoined name closes c h = elim (Option-cases (Dict.get dec name c.topics)) [
    | inl gone ↦ rw (leave_topic, gone) h
    | inr (topic, e) ↦ rw (leave_topic, e) (by_main topic (dec name c.main_topic))
  ]
    where
      by_main :
          (topic : ℕ) (main : Dec (name ≡ c.main_topic))
          → IsJoined
              (ite {C = Protocol Topic × Bool} main
                (c, true)
                (close_topic dec name topic (cancel_subscription dec name c), closes)).0
      by_main topic (yes p) = h
      by_main topic (no n) = close_topic-IsJoined name topic c h

  disconnect_each-IsJoined :
      (topics : List (Topic × ℕ)) (c : Protocol Topic)
      → IsJoined c
      → IsJoined (disconnect_each dec topics c)
  unfolding disconnect_each
  disconnect_each-IsJoined [] c h = h
  disconnect_each-IsJoined ((name, topic) ∷ rest) c h =
      disconnect_each-IsJoined rest _ (close_topic-IsJoined name topic c h)

  call-IsJoined : (x : Call) (c : Protocol Topic) → IsJoined c → IsJoined (call x c)
  unfolding call disconnect
  call-IsJoined (joins name joined) c h = join_topic-IsJoined name joined c h
  call-IsJoined (leaves name closes) c h = leave_topic-IsJoined name closes c h
  call-IsJoined (subscribes name subscribed) c h = subscribe-IsJoined name subscribed c h
  call-IsJoined disconnects c h = disconnect_each-IsJoined c.topics c h

  run-IsJoined : (xs : List Call) (c : Protocol Topic) → IsJoined c → IsJoined (run xs c)
  unfolding run
  run-IsJoined [] c h = h
  run-IsJoined (x ∷ xs) c h = run-IsJoined xs (call x c) (call-IsJoined x c h)

  -- Whatever calls a node makes from its start on, and whatever pubsub answers, it is subscribed
  -- only to topics that it has joined, and no topic stands twice in its tables.
  pub run-new-IsJoined :
      (main : Topic) (topic subscription : ℕ) (xs : List Call)
      → IsJoined (run xs (new_pub_sub_with_topic main topic subscription))
  unfolding new_pub_sub_with_topic Dict.get
  run-new-IsJoined main topic subscription xs = run-IsJoined xs _ (record {
    joined = λ name gone. ground arith;
    keyed_topics = (refl, tt);
    keyed_subscriptions = (refl, tt);
  })

  -- Without the topics there are no subscriptions.
  no_subscriptions : (c : Protocol Topic) → IsJoined c → c.topics ≡ [] → c.subscriptions ≡ []
  unfolding Dict.get
  no_subscriptions c h e = by_list c.subscriptions (λ name. h.joined name (rw e refl))
    where
      by_list : (m : List (Topic × ℕ)) → ((name : Topic) → Dict.get dec name m ≡ none) → m ≡ []
      by_list [] n = refl
      by_list ((name, v) ∷ m) n = absurd (ground (arith, n name))

  topics-disconnect_each :
      (topics : List (Topic × ℕ)) (c : Protocol Topic)
      → Dict.Keyed dec topics
      → c.topics ≡ topics
      → (disconnect_each dec topics c).topics ≡ []
  unfolding disconnect_each Dict.delete
  topics-disconnect_each [] c k e = e
  topics-disconnect_each ((name, topic) ∷ rest) c k e = topics-disconnect_each rest _ k.1 (
      ap (Dict.delete dec name) (topics-cancel_subscription name c ∙ e)
      ∙ ground (arith, Dict.delete_absent dec name rest k.0))

  -- A node that disconnects, from any state that its calls lead to, has no topic and no
  -- subscription left.
  pub disconnect_lem :
      (c : Protocol Topic)
      → IsJoined c
      → ((disconnect dec c).topics ≡ []) × ((disconnect dec c).subscriptions ≡ [])
  unfolding disconnect
  disconnect_lem c h =
      let gone = topics-disconnect_each c.topics c h.keyed_topics refl in
      (
        gone,
        no_subscriptions (disconnect_each dec c.topics c) (disconnect_each-IsJoined c.topics c h)
            gone,
      )
