-- ===== src/Tests/Topics.antt =====
-- consensus/consensus.go at small inputs; a topic's name is a number.
use relayer.Base.{ℕ, List, [], ◌∷◌, some, true, ℕ_discrete, ◌≡◌, refl, subst}
use relayer.Base.Dict
use relayer.Consensus.Topics.{
  Protocol, new_pub_sub_with_topic, get_topic, join_topic, cancel_subscription, leave_topic,
  receive_from, receive, disconnect_each, disconnect, subscribe,
}
use relayer.Consensus.Topics.Joined.{
  IsJoined, Call, joins, leaves, subscribes, call, run, run-new-IsJoined,
}

program : Unit {0}
unfolding new_pub_sub_with_topic get_topic join_topic cancel_subscription leave_topic receive_from
    receive disconnect_each disconnect subscribe call run Dict.get Dict.put Dict.delete ℕ_discrete
program = tt

abbrev calls : List (Call ℕ_discrete)
calls = joins 5 (some 2) ∷ subscribes 5 (some 3) ∷ leaves 0 true ∷ []

abbrev two_topics : Protocol ℕ
two_topics = record {
  main_topic = 0;
  topics = (5, 2) ∷ (0, 0) ∷ [];
  subscriptions = (5, 3) ∷ (0, 1) ∷ [];
  cancelled = [];
  closed = [];
}

ends_with_two : run ℕ_discrete calls (new_pub_sub_with_topic 0 0 1) ≡ two_topics
unfolding program
ends_with_two = refl

-- Disconnecting closes what was opened, once each.
disconnects_both : disconnect ℕ_discrete two_topics ≡ record {
  main_topic = 0;
  topics = [];
  subscriptions = [];
  cancelled = 1 ∷ 3 ∷ [];
  closed = 0 ∷ 2 ∷ [];
}
unfolding program
disconnects_both = refl

receives_on_main : receive ℕ_discrete two_topics ≡ some 1
unfolding program
receives_on_main = refl

run-new-IsJoined_example : IsJoined ℕ_discrete (run ℕ_discrete calls (new_pub_sub_with_topic 0 0 1))
run-new-IsJoined_example = run-new-IsJoined ℕ_discrete 0 0 1 calls

two_topics-IsJoined : IsJoined ℕ_discrete two_topics
two_topics-IsJoined =
    subst (IsJoined ℕ_discrete) ends_with_two (run-new-IsJoined ℕ_discrete 0 0 1 calls)
