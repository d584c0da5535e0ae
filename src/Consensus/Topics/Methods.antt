-- ===== src/Consensus/Topics/Methods.antt =====
-- What the methods of consensus/consensus.go do to the topics and the subscriptions of a node.
use relayer.Base.{ℕ, none, some, Bool, ite, ◌≡◌, arith}
use relayer.Base.Dict
use relayer.Consensus.Topics.{
  Protocol, get_topic, join_topic, cancel_subscription, leave_topic, receive_from, subscribe,
}
use relayer.Consensus.Topics.Joined.{IsJoined}

module _ {Topic : Type 0} (dec : Discrete Topic) where
  -- `LeaveTopic` takes away the topic that it names and the subscription to it, unless that is the
  -- main topic, whatever `Close` answers; every other topic and subscription stays.
  pub leave_topic_lem :
      (name other : Topic) (closes : Bool) (c : Protocol Topic)
      → IsJoined dec c
      → (get_topic dec other (leave_topic dec name closes c).0
          ≡ ite
              (dec name c.main_topic)
              (get_topic dec other c)
              (ite (dec name other) none (get_topic dec other c)))
        × (receive_from dec other (leave_topic dec name closes c).0
            ≡ ite
                (dec name c.main_topic)
                (receive_from dec other c)
                (ite (dec name other) none (receive_from dec other c)))
  unfolding get_topic receive_from leave_topic cancel_subscription
  leave_topic_lem name other closes c h = (
    ground (arith, Dict.get-delete dec other name c.topics),
    ground (arith, h.joined name, Dict.get-delete dec other name c.subscriptions),
  )

  -- After a topic is joined and then subscribed to, and pubsub granted both, `ReceiveFrom` waits on
  -- the new subscription, or on the old one if there was one; for the other topics it waits as
  -- before.
  pub subscribe-join_topic :
      (name other : Topic) (topic subscription : ℕ) (c : Protocol Topic)
      → receive_from dec other
          (subscribe dec name (some subscription) (join_topic dec name (some topic) c).0).0
        ≡ ite
            (dec name other)
            (some (elim (receive_from dec name c) [ some old ↦ old | none ↦ subscription ]))
            (receive_from dec other c)
  unfolding receive_from subscribe join_topic
  subscribe-join_topic name other topic subscription c = ground (
    arith,
    Dict.get-put dec other name subscription c.subscriptions,
    Dict.get-put dec name name topic c.topics,
  )
