-- ===== src/Node/Requests.antt =====
-- The handling of an oracle request in node/bridge/node.go: the session that it makes, the protocol
-- on the request's topic, the call on the other chain, and a new epoch. What the network, the
-- registry of nodes and the other chain answer are arguments.
pub mod Follower
pub mod Majority
pub mod Topics
use relayer.Base.{
  ℕ, zero, suc, ◌+◌, ◌/◌, ◌&&◌, ltb, List, [], ◌∷◌, Bytes, zeros, bytes_discrete, Option, none,
  some, Bool, true, false, Outcome, ok, panic, nil_dereference, ◌>>=◌, if◌then◌else◌, ite,
}
use relayer.Base.Int.{ℤ}
use relayer.Consensus.Topics.{Protocol, join_topic, leave_topic, subscribe}
use relayer.Node.Distribute.{Ledgers, Round, distribute_block, receive_and_save_block}
use relayer.Node.QuitHandlers.{QuitHandlers, remove_topic_handler}

abbrev pub min_consensus_nodes_count : ℕ
min_consensus_nodes_count = 5

-- one round of the loop of `NewSession`: how many take part in the topic, the node itself
-- included, how many are in the rendezvous, and the leader that would be chosen
pub record Gathering (Peer : Type 0) : Type 0 where
  pub participants : ℕ
  pub in_rendezvous : ℕ
  pub leader : Peer

-- what `NewSession` sets of a session from what it found
pub record NewSession (Peer : Type 0) : Type 0 where
  pub id : ℤ
  pub threshold_wit : ℕ
  pub threshold_ack : ℕ
  pub leader : Peer

-- what the registry of nodes answers: whether it has the keys, whether it knows the node, and the
-- node's number, none for an error
pub record Registry : Type 0 where
  pub public_keys : Bool
  pub node_exists : Bool
  pub node_id : Option ℤ

unfoldable pub enough : {Peer : Type 0} → Gathering Peer → Bool
enough g =
    ltb min_consensus_nodes_count g.participants && ltb (g.in_rendezvous / 2 + 1) g.participants

-- the loop, over its rounds until the deadline; none for nil
unfoldable pub gather : {Peer : Type 0} → ℤ → List (Gathering Peer) → Option (NewSession Peer)
gather id [] = none
gather id (g ∷ rounds) =
    let rest = gather id rounds in
    if enough g
    then some (record {
      id = id;
      threshold_wit = g.participants / 2 + 1;
      threshold_ack = g.participants / 2 + 1;
      leader = g.leader;
    })
    else rest

-- `NewSession`: whether its error is nil, and the session, none for nil
unfoldable pub new_session :
    {Peer : Type 0} → Registry → List (Gathering Peer) → Bool × Option (NewSession Peer)
new_session registry rounds =
    if registry.public_keys
    then if registry.node_exists
      then elim registry.node_id [ none ↦ (false, none) | some id ↦ (true, gather id rounds) ]
      else (true, none)
    else (false, none)

-- What the calls of `ReceiveRequestV2` answer; none for an error, for `waited` also for a receipt
-- that is nil.
pub record OtherChain (Hash Opts Receipt : Type 0) : Type 0 where
  pub client_found : Bool
  pub bridge_made : Bool
  pub can_use_gsn : Bool
  pub has_gsn_client : Bool
  pub by_gsn : Option Hash
  pub call_opts : Option Opts
  pub by_call : Opts → Option Hash
  pub waited : Hash → Option Receipt

module _ {Hash Opts Receipt : Type 0} where
  -- the call of a contract whose binding could not be made is a call of nil
  unfoldable pub call_bridge : OtherChain Hash Opts Receipt → Opts → Outcome (Option Hash)
  call_bridge chain opts =
      if chain.bridge_made then ok (chain.by_call opts) else panic nil_dereference

  -- the part of `ReceiveRequestV2` under the mutex of the nonce
  unfoldable pub send_request : OtherChain Hash Opts Receipt → Outcome (Option Hash)
  send_request chain =
      if chain.can_use_gsn && chain.has_gsn_client
      then ok chain.by_gsn
      else elim chain.call_opts [ none ↦ ok none | some opts ↦ call_bridge chain opts ]

  -- what it does with the hash, after the mutex is released
  unfoldable pub await_request :
      OtherChain Hash Opts Receipt → Option Hash → Outcome (Option Receipt)
  await_request chain none = ok none
  await_request chain (some hash) = ok (chain.waited hash)

  -- `ReceiveRequestV2`; every branch that returns has released the mutex
  unfoldable pub receive_request_v2 : OtherChain Hash Opts Receipt → Outcome (Option Receipt)
  receive_request_v2 chain =
      if chain.client_found then send_request chain >>= await_request chain else ok none

-- What a protocol that was started meets: whether the nodes agree within its time, whether the
-- goroutines of its session come to their ends, who the node is, what the leader makes of the request
-- and what its call comes to, and what the others receive.
pub record Course (Peer Block Ledger Hash Opts Receipt : Type 0) : Type 0 where
  pub agreed : Bool
  pub session_ends : Bool
  pub host : Peer
  pub node_id : ℤ
  pub create_block_from_event : Ledger → Ledger × Option Block
  pub chain : OtherChain Hash Opts Receipt
  pub received : List Round

module _ {Peer Block Ledger Hash Opts Receipt : Type 0} (dec_peer : Discrete Peer)
    (k : Ledgers Block Ledger) where
  -- the part of a leader; errors are logged
  unfoldable pub lead : Course Peer Block Ledger Hash Opts Receipt → Ledger → Outcome Ledger
  lead course ledger =
      let made = course.create_block_from_event ledger in
      distribute_block k course.node_id made.1 >>= λ sent.
      receive_request_v2 course.chain >>= λ receipt. ok made.0

  -- `StartProtocolByOracleRequest`, with the ledger, and whether all that it adds to the wait group
  -- is done
  unfoldable pub start_protocol_by_oracle_request :
      Course Peer Block Ledger Hash Opts Receipt
      → NewSession Peer
      → Ledger
      → Outcome (Ledger × Bool)
  start_protocol_by_oracle_request course session ledger =
      if course.agreed
      then ite (dec_peer session.leader course.host)
          (lead course ledger >>= λ next. ok (next, course.session_ends))
          (ok (receive_and_save_block k course.received ledger))
      else ok (ledger, course.session_ends)

module _ {Topic Ledger : Type 0} (dec : Discrete Topic) where
  -- the deferred leaving
  unfoldable pub leave_at_end :
      Topic → Bool → Protocol Topic × Ledger × Bool → Protocol Topic × Ledger × Bool
  leave_at_end name closes (p, ledger, true) = ((leave_topic dec name closes p).0, ledger, true)
  leave_at_end name closes (p, ledger, false) = (p, ledger, false)

module _ {Topic Peer Block Ledger Hash Opts Receipt : Type 0} (dec : Discrete Topic)
    (dec_peer : Discrete Peer) (k : Ledgers Block Ledger) where
  -- `HandleOracleRequest` between the joining of its topic and the deferred leaving, with whether it
  -- comes to its end. A protocol does not touch the tables of topics; no other handler runs in between.
  unfoldable pub in_topic :
      Topic
      → Option ℕ
      → Registry
      → List (Gathering Peer)
      → Course Peer Block Ledger Hash Opts Receipt
      → Protocol Topic
      → Ledger
      → Outcome (Protocol Topic × Ledger × Bool)
  in_topic name subscribed registry rounds course p ledger =
      let r = subscribe dec name subscribed p in
      let made = new_session registry rounds in
      if r.1 && made.0
      then elim made.1 [
        | none ↦ ok (r.0, ledger, true)
        | some session ↦
            start_protocol_by_oracle_request dec_peer k course session ledger >>= λ ended.
            ok (r.0, ended.0, ended.1)
      ]
      else ok (r.0, ledger, true)

  -- `HandleOracleRequest`, with what pubsub answers to its join, its subscription and its closing;
  -- and whether it returns
  unfoldable pub handle_oracle_request :
      Topic
      → Option ℕ
      → Option ℕ
      → Bool
      → Registry
      → List (Gathering Peer)
      → Course Peer Block Ledger Hash Opts Receipt
      → Protocol Topic
      → Ledger
      → Outcome (Protocol Topic × Ledger × Bool)
  handle_oracle_request name joined subscribed closes registry rounds course p ledger =
      let r = join_topic dec name joined p in
      elim r.1 [
        | none ↦ ok (r.0, ledger, true)
        | some topic ↦ in_topic name subscribed registry rounds course r.0 ledger >>= λ s.
            ok (leave_at_end dec name closes s)
      ]

-- `EpochTopicName`, with the hexadecimal text of a key
unfoldable pub epoch_topic_name : (Bytes → Bytes) → Bytes → Bytes
epoch_topic_name hex key = 69 ∷ 112 ∷ 111 ∷ 99 ∷ 104 ∷ 58 ∷ hex key

abbrev pub no_epoch_key : Bytes
no_epoch_key = zeros 128

-- `HandleNewEpoch`, with whether it starts an epoch
unfoldable pub handle_new_epoch :
    (Bytes → Bytes) → Bytes → QuitHandlers Bytes → Outcome (QuitHandlers Bytes × Bool)
handle_new_epoch hex new_key q =
    remove_topic_handler bytes_discrete (epoch_topic_name hex new_key) q >>= λ (next, removed).
    ok (next, ite (bytes_discrete new_key no_epoch_key) true false)
