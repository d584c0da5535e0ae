-- ===== src/Tests/Requests.antt =====
-- The requests of node/bridge/node.go at small inputs; the name of a topic is a number, and so are a
-- peer, a hash, options and a receipt.
use relayer.Base.{
  bytes_discrete, ℕ, List, [], ◌∷◌, none, some, true, false, ok, panic, nil_dereference, ite,
  ℕ_discrete, In, ◌≡◌, ◌≢◌, ◌+◌, refl, subst, arith,
}
use relayer.Base.Dict
use relayer.Base.Int.{pos}
use relayer.Consensus.Topics.{
  Protocol, new_pub_sub_with_topic, get_topic, join_topic, cancel_subscription, leave_topic,
  receive_from, subscribe,
}
use relayer.Consensus.Topics.Joined.{IsJoined, run, run-new-IsJoined, call}
use relayer.Node.Distribute.{
  Ledgers, distribute_block_phase, context_done, received, distribute_block, save_block,
  receive_round, receive_and_save_block,
}
use relayer.Node.QuitHandlers.{new_quit_handlers, remove_topic_handler}
use relayer.Node.Requests.Follower.{follower_hangs}
use relayer.Node.Requests.{
  Course, lead, start_protocol_by_oracle_request, leave_at_end, handle_new_epoch, no_epoch_key,
  Gathering, NewSession, Registry, OtherChain, enough, gather, new_session, in_topic,
  handle_oracle_request, epoch_topic_name, call_bridge, send_request, await_request,
  receive_request_v2,
}
use relayer.Node.Requests.Majority.{IsMajority, new_session-IsMajority}
use relayer.Node.Requests.Topics.{handle_oracle_request_lem}

program : Unit {0}
unfolding new_pub_sub_with_topic get_topic join_topic cancel_subscription leave_topic receive_from
    subscribe call run Dict.get Dict.put Dict.delete ℕ_discrete enough gather new_session in_topic
    handle_oracle_request epoch_topic_name call_bridge send_request await_request receive_request_v2
    lead start_protocol_by_oracle_request leave_at_end handle_new_epoch distribute_block save_block
    receive_round receive_and_save_block new_quit_handlers remove_topic_handler bytes_discrete
program = tt

abbrev known : Registry
known = record { public_keys = true; node_exists = true; node_id = some (pos 7) }

-- Five are too few; six are enough among eight, and the majority of six is four.
abbrev rounds : List (Gathering ℕ)
rounds =
    record { participants = 5; in_rendezvous = 8; leader = 0 }
    ∷ record { participants = 6; in_rendezvous = 8; leader = 1 }
    ∷ []

-- A node that is not in the registry has no session and no error.
unknown : new_session (record known { node_exists = false }) rounds ≡ (true, none)
unfolding program
unknown = refl

abbrev six_of_eight : NewSession ℕ
six_of_eight = record { id = pos 7; threshold_wit = 4; threshold_ack = 4; leader = 1 }

makes_six_of_eight : (new_session known rounds).1 ≡ some six_of_eight
unfolding program
makes_six_of_eight = refl

new_session-IsMajority_example : (g : Gathering ℕ) × In g rounds × IsMajority six_of_eight g
new_session-IsMajority_example = new_session-IsMajority known rounds six_of_eight makes_six_of_eight

abbrev start : Protocol ℕ
start = new_pub_sub_with_topic 0 0 1

abbrev chain : OtherChain ℕ ℕ ℕ
chain = record {
  client_found = true;
  bridge_made = true;
  can_use_gsn = true;
  has_gsn_client = false;
  by_gsn = some 1;
  call_opts = some 2;
  by_call = λ opts. some (opts + 1);
  waited = λ hash. some hash;
}

calls_itself : receive_request_v2 chain ≡ ok (some 3)
unfolding program
calls_itself = refl

-- Without the binding of the opposite bridge, the call is one of nil.
no_binding : receive_request_v2 (record chain { bridge_made = false }) ≡ panic nil_dereference
unfolding program
no_binding = refl

abbrev ledgers : Ledgers ℕ (List ℕ)
ledgers = record {
  to_array = λ block. ok [];
  block_from_raw_bytes = λ bytes. elim bytes [ [] ↦ none | b ∷ bs ↦ some b ];
  exec_and_save_block = λ block ledger. block ∷ ledger;
}

-- The host 1 is the leader of the session, and the host 2 is not.
abbrev course : ℕ → Course ℕ ℕ (List ℕ) ℕ ℕ ℕ
course host = record {
  agreed = true;
  session_ends = true;
  host = host;
  node_id = pos 7;
  create_block_from_event = λ ledger. (9 ∷ ledger, some 9);
  chain = chain;
  received =
      context_done
      ∷ received (
          some (record { source = pos 1; msg_type = distribute_block_phase; block_bytes = 9 ∷ [] }))
      ∷ received none
      ∷ [];
}

leads :
    handle_oracle_request ℕ_discrete ℕ_discrete ledgers 5
      (some 2)
      (some 3)
      true
      known
      rounds
      (course 1)
      start
      []
    ≡ ok (record start { cancelled = 3 ∷ []; closed = 2 ∷ [] }, 9 ∷ [], true)
unfolding program
leads = refl

-- A node that is not the leader takes the block, and never leaves the topic.
follows :
    handle_oracle_request ℕ_discrete ℕ_discrete ledgers 5
      (some 2)
      (some 3)
      true
      known
      rounds
      (course 2)
      start
      []
    ≡ ok (
      record start { topics = (5, 2) ∷ (0, 0) ∷ []; subscriptions = (5, 3) ∷ (0, 1) ∷ [] },
      9 ∷ [],
      false,
    )
unfolding program
follows = refl

starts_so : run ℕ_discrete [] start ≡ start
unfolding program
starts_so = refl

start-IsJoined : IsJoined ℕ_discrete start
start-IsJoined = subst (IsJoined ℕ_discrete) starts_so (run-new-IsJoined ℕ_discrete 0 0 1 [])

not_main : 5 ≢ start.main_topic
unfolding program
not_main = omega arith

handle_oracle_request_lem_example :
    (get_topic ℕ_discrete 5 (record start { cancelled = 3 ∷ []; closed = 2 ∷ [] })
      ≡ ite (ℕ_discrete 5 5) none (get_topic ℕ_discrete 5 start))
    × (receive_from ℕ_discrete 5 (record start { cancelled = 3 ∷ []; closed = 2 ∷ [] })
        ≡ ite (ℕ_discrete 5 5) none (receive_from ℕ_discrete 5 start))
handle_oracle_request_lem_example =
    handle_oracle_request_lem ℕ_discrete ℕ_discrete ledgers 5 5 (some 2) (some 3) true known rounds
      (course 1) start (record start { cancelled = 3 ∷ []; closed = 2 ∷ [] }) [] (9 ∷ []) not_main
      start-IsJoined leads

joins : (join_topic ℕ_discrete 5 (some 2) start).1 ≡ some 2
unfolding program
joins = refl

subscribes : (subscribe ℕ_discrete 5 (some 3) (join_topic ℕ_discrete 5 (some 2) start).0).1 ≡ true
unfolding program
subscribes = refl

makes_session : new_session known rounds ≡ (true, some six_of_eight)
unfolding program
makes_session = refl

follower_hangs_example :
    handle_oracle_request ℕ_discrete ℕ_discrete ledgers 5
      (some 2)
      (some 3)
      true
      known
      rounds
      (course 2)
      start
      []
    ≡ ok (
      (subscribe ℕ_discrete 5 (some 3) (join_topic ℕ_discrete 5 (some 2) start).0).0,
      (receive_and_save_block ledgers (course 2).received []).0,
      false,
    )
follower_hangs_example =
    follower_hangs ℕ_discrete ℕ_discrete ledgers 5 (some 2) (some 3) true known rounds (course 2)
      start [] 2 six_of_eight joins subscribes makes_session refl (omega arith)

-- A new epoch ends the spreading of its topic, and starts another one if it has no key.
starts_epoch :
    handle_new_epoch (λ bytes. bytes) no_epoch_key new_quit_handlers ≡ ok (new_quit_handlers, true)
unfolding program
starts_epoch = refl
