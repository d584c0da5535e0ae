-- ===== src/Node/Requests/Follower.antt =====
-- That a node of node/bridge/node.go that is not the leader never ends a request on which the nodes
-- have agreed.
use relayer.Base.{ℕ, List, Option, some, Bool, true, false, ok, ◌≡◌, ◌≢◌, refl, ◌∙◌, arith}
use relayer.Consensus.Topics.{Protocol, join_topic, subscribe}
use relayer.Node.Distribute.{Ledgers, receive_and_save_block, receive_and_save_block_hangs}
use relayer.Node.Requests.{
  Registry, Gathering, NewSession, Course, new_session, start_protocol_by_oracle_request, in_topic,
  leave_at_end, handle_oracle_request,
}
use relayer.Node.Requests.Topics.{handle_oracle_request_joined}

module _ {Topic Peer Block Ledger Hash Opts Receipt : Type 0} (dec : Discrete Topic)
    (dec_peer : Discrete Peer) (k : Ledgers Block Ledger) where
  start_protocol_hangs :
      (course : Course Peer Block Ledger Hash Opts Receipt) (session : NewSession Peer)
      (ledger : Ledger)
      → course.agreed ≡ true
      → session.leader ≢ course.host
      → start_protocol_by_oracle_request dec_peer k course session ledger
        ≡ ok ((receive_and_save_block k course.received ledger).0, false)
  unfolding start_protocol_by_oracle_request
  start_protocol_hangs course session ledger agreed other =
      ground (arith, receive_and_save_block_hangs k course.received ledger)

  -- A node that joined the topic of a request, subscribed to it and made a session never returns
  -- from the handling of the request if the nodes agree and it is not the leader: whatever it
  -- receives, it goes on receiving, and neither leaves the topic nor cancels its subscription.
  pub follower_hangs :
      (name : Topic) (joined subscribed : Option ℕ) (closes : Bool) (registry : Registry)
      (rounds : List (Gathering Peer)) (course : Course Peer Block Ledger Hash Opts Receipt)
      (p : Protocol Topic) (ledger : Ledger) (topic : ℕ) (session : NewSession Peer)
      → (join_topic dec name joined p).1 ≡ some topic
      → (subscribe dec name subscribed (join_topic dec name joined p).0).1 ≡ true
      → new_session registry rounds ≡ (true, some session)
      → course.agreed ≡ true
      → session.leader ≢ course.host
      → handle_oracle_request dec dec_peer k name joined subscribed closes registry rounds course p
          ledger
        ≡ ok (
          (subscribe dec name subscribed (join_topic dec name joined p).0).0,
          (receive_and_save_block k course.received ledger).0,
          false,
        )
  unfolding in_topic leave_at_end
  follower_hangs name joined subscribed closes registry rounds course p ledger topic session e s
        made agreed other =
      handle_oracle_request_joined dec dec_peer k name joined subscribed closes registry rounds
        course p ledger topic e
      ∙ rw (in_topic, s, made, start_protocol_hangs course session ledger agreed other) refl
