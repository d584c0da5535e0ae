-- ===== src/Consensus/Topics.antt =====
-- consensus/consensus.go: the topics that a node has joined and its subscriptions to them. What
-- go-libp2p-pubsub answers to a call is an argument: the handle that `Join` or `Subscribe` returns,
-- none with an error, and whether `Close` succeeds. A handle is a number. The calls of `Cancel` and
-- `Close` are noted in the state, the latest first. Every method holds the mutex throughout, or
-- until it has the handle that it is to wait on, so each is one step.
pub mod Joined
pub mod Methods
use relayer.Base.{
  ℕ, List, [], ◌∷◌, Option, none, some, Bool, true, false, not, ◌&&◌, if◌then◌else◌, ite,
}
use relayer.Base.Dict

pub record Protocol (Topic : Type 0) : Type 0 where
  pub main_topic : Topic
  pub topics : List (Topic × ℕ)
  pub subscriptions : List (Topic × ℕ)
  pub cancelled : List ℕ
  pub closed : List ℕ

-- The end of `NewPubSubWithTopic`, with the handles that it obtained.
unfoldable pub new_pub_sub_with_topic : {Topic : Type 0} → Topic → ℕ → ℕ → Protocol Topic
new_pub_sub_with_topic main topic subscription = record {
  main_topic = main;
  topics = (main, topic) ∷ [];
  subscriptions = (main, subscription) ∷ [];
  cancelled = [];
  closed = [];
}

module _ {Topic : Type 0} (dec : Discrete Topic) where
  unfoldable pub get_topic : Topic → Protocol Topic → Option ℕ
  get_topic name c = Dict.get dec name c.topics

  -- The new state and the topic, none with an error.
  unfoldable pub join_topic : Topic → Option ℕ → Protocol Topic → Protocol Topic × Option ℕ
  join_topic name joined c = elim (Dict.get dec name c.topics) [
    | some topic ↦ (c, some topic)
    | none ↦ elim joined [
      | some topic ↦ (record c { topics = Dict.put dec name topic c.topics }, some topic)
      | none ↦ (c, none)
    ]
  ]

  -- `subscription.Cancel()` and the deletion, where there is a subscription
  unfoldable pub cancel_subscription : Topic → Protocol Topic → Protocol Topic
  cancel_subscription name c = elim (Dict.get dec name c.subscriptions) [
    | some subscription ↦ record c {
      subscriptions = Dict.delete dec name c.subscriptions;
      cancelled = subscription ∷ c.cancelled;
    }
    | none ↦ c
  ]

  -- the deletion of a topic, and `topic.Close()`
  abbrev pub close_topic : Topic → ℕ → Protocol Topic → Protocol Topic
  close_topic name topic c = record c {
    topics = Dict.delete dec name c.topics;
    closed = topic ∷ c.closed;
  }

  -- The new state, and whether it returns nil.
  unfoldable pub leave_topic : Topic → Bool → Protocol Topic → Protocol Topic × Bool
  leave_topic name closes c = elim (Dict.get dec name c.topics) [
    | some topic ↦
        ite (dec name c.main_topic) (c, true)
          (close_topic name topic (cancel_subscription name c), closes)
    | none ↦ (c, true)
  ]

  -- The subscription that `ReceiveFrom` waits on; without one it returns nil.
  unfoldable pub receive_from : Topic → Protocol Topic → Option ℕ
  receive_from name c = Dict.get dec name c.subscriptions

  unfoldable pub receive : Protocol Topic → Option ℕ
  receive c = Dict.get dec c.main_topic c.subscriptions

  -- the loop of `Disconnect`, over the topics that it ranges over; errors are logged
  unfoldable pub disconnect_each : List (Topic × ℕ) → Protocol Topic → Protocol Topic
  disconnect_each [] c = c
  disconnect_each ((name, topic) ∷ rest) c =
      disconnect_each rest (close_topic name topic (cancel_subscription name c))

  unfoldable pub disconnect : Protocol Topic → Protocol Topic
  disconnect c = disconnect_each c.topics c

  -- The new state, and whether it returns nil.
  unfoldable pub subscribe : Topic → Option ℕ → Protocol Topic → Protocol Topic × Bool
  subscribe name subscribed c = elim (Dict.get dec name c.topics) [
    | some topic ↦ elim (Dict.get dec name c.subscriptions) [
      | some subscription ↦ (c, true)
      | none ↦ elim subscribed [
        | some subscription ↦
            (record c { subscriptions = Dict.put dec name subscription c.subscriptions }, true)
        | none ↦ (c, false)
      ]
    ]
    | none ↦ (c, false)
  ]
