-- ===== src/Tests/Node.antt =====
-- node/bridge/quit_handlers.go at small inputs; topics are numbers here.
use relayer.Base.{ℕ, List, [], ◌∷◌, ℕ_discrete, ok, panic, close_of_closed, ◌≡◌, refl, arith}
use relayer.Base.Dict
use relayer.Node.QuitHandlers.{
  QuitHandlers, is_closed, close, new_quit_handlers, add_quit_handler, debug_map_length,
}
use relayer.Node.QuitHandlers.Invariant.{IsWellFormed}
use relayer.Node.QuitHandlers.Methods.{Call, add, remove, remove_topic, run, run-new-IsWellFormed}

abbrev one_topic : QuitHandlers ℕ
one_topic = record { handlers = (7, 0) ∷ []; topics = (0, 7) ∷ []; next = 1; closed = [] }

-- The second protocol on a topic closes the first one's channel.
add_twice :
    add_quit_handler ℕ_discrete 7 one_topic
    ≡ ok (record { handlers = (7, 1) ∷ []; topics = (1, 7) ∷ []; next = 2; closed = 0 ∷ [] }, 1)
unfolding add_quit_handler close is_closed Dict.get Dict.put Dict.delete ℕ_discrete
add_twice = refl

-- A channel that a caller had closed would make the registry panic.
add_closed :
    add_quit_handler ℕ_discrete 7 (record one_topic { closed = 0 ∷ [] }) ≡ panic close_of_closed
unfolding add_quit_handler close is_closed Dict.get Dict.put Dict.delete ℕ_discrete
add_closed = refl

one_topic-IsWellFormed : IsWellFormed ℕ_discrete one_topic
unfolding Dict.get is_closed
one_topic-IsWellFormed = record {
  paired = λ t c h. ground arith;
  back = λ t c h. ground arith;
  live = λ t c h. refl;
  made = λ t c h. ground arith;
  spent = λ c h. absurd (ground arith);
  keyed_handlers = ground arith;
  keyed_topics = ground arith;
  same_length = refl;
}

abbrev calls : List (Call ℕ_discrete)
calls = add 7 ∷ add 7 ∷ remove 0 ∷ add 8 ∷ remove_topic 7 ∷ remove 2 ∷ []

run-new-IsWellFormed_example :
    (q : QuitHandlers ℕ) × (run ℕ_discrete calls new_quit_handlers ≡ ok q)
    × IsWellFormed ℕ_discrete q
    × ((debug_map_length q).0 ≡ (debug_map_length q).1)
run-new-IsWellFormed_example = run-new-IsWellFormed ℕ_discrete calls
