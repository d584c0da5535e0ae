-- ===== src/Node/QuitHandlers.antt =====
-- node/bridge/quit_handlers.go: the registry of the quit channels of the running protocols. A
-- channel is a number, given out by `make` in order; topics are an arbitrary type with decidable
-- equality. A method is one step: each runs under the registry's mutex, but for `DebugMapLength`.
-- Callers do not close the channels that they are given; they hand them back.
pub mod Invariant
pub mod Methods
use relayer.Base.{
  ℕ, suc, ite, List, [], ◌∷◌, Option, none, some, Bool, true, false, ℕ_discrete, Outcome, ok, panic,
  close_of_closed, ◌>>=◌, length,
}
use relayer.Base.Dict

pub record QuitHandlers (Topic : Type 0) : Type 0 where
  pub handlers : List (Topic × ℕ)
  pub topics : List (ℕ × Topic)
  -- the channels made so far are the numbers below `next`
  pub next : ℕ
  pub closed : List ℕ

unfoldable pub is_closed : ℕ → List ℕ → Bool
is_closed ch [] = false
is_closed ch (c ∷ cs) = ite (ℕ_discrete c ch) true (is_closed ch cs)

-- `close(ch)`: to close a closed channel panics.
unfoldable pub close : ℕ → List ℕ → Outcome (List ℕ)
close ch closed = elim (is_closed ch closed) [
  | true ↦ panic close_of_closed
  | false ↦ ok (ch ∷ closed)
]

unfoldable pub new_quit_handlers : {Topic : Type 0} → QuitHandlers Topic
new_quit_handlers = record { handlers = []; topics = []; next = 0; closed = [] }

module _ {Topic : Type 0} (dec : Discrete Topic) where
  -- the last two assignments of `AddQuitHandler`
  abbrev pub register : Topic → QuitHandlers Topic → QuitHandlers Topic × ℕ
  register topic q = (
    record q {
      handlers = Dict.put dec topic q.next q.handlers;
      topics = Dict.put ℕ_discrete q.next topic q.topics;
      next = suc q.next;
    },
    q.next,
  )

  unfoldable pub add_quit_handler : Topic → QuitHandlers Topic → Outcome (QuitHandlers Topic × ℕ)
  add_quit_handler topic q = elim (Dict.get dec topic q.handlers) [
    | some oldch ↦ do
      closed ← close oldch q.closed
      ok (
          register topic
            (record q { closed = closed; topics = Dict.delete ℕ_discrete oldch q.topics }))
    | none ↦ ok (register topic q)
  ]

  -- what both removals do to a channel and its topic
  abbrev pub drop_entry : Topic → ℕ → QuitHandlers Topic → List ℕ → QuitHandlers Topic
  drop_entry topic ch q closed = record q {
    handlers = Dict.delete dec topic q.handlers;
    topics = Dict.delete ℕ_discrete ch q.topics;
    closed = closed;
  }

  -- the inner test of `RemoveQuitHandler`, on the topic that the channel stands for
  unfoldable pub remove_if_current :
      ℕ → QuitHandlers Topic → Topic → Option ℕ → Outcome (QuitHandlers Topic × Option Topic)
  remove_if_current ch q topic none = ok (q, none)
  remove_if_current ch q topic (some oldch) =
      ite (ℕ_discrete oldch ch)
        (close oldch q.closed >>= λ closed. ok (drop_entry topic ch q closed, some topic))
        (ok (q, none))

  unfoldable pub remove_quit_handler :
      ℕ → QuitHandlers Topic → Outcome (QuitHandlers Topic × Option Topic)
  unfolding remove_if_current
  remove_quit_handler ch q = elim (Dict.get ℕ_discrete ch q.topics) [
    | some topic ↦ remove_if_current ch q topic (Dict.get dec topic q.handlers)
    | none ↦ ok (q, none)
  ]

  unfoldable pub remove_topic_handler :
      Topic → QuitHandlers Topic → Outcome (QuitHandlers Topic × Bool)
  remove_topic_handler topic q = elim (Dict.get dec topic q.handlers) [
    | some ch ↦ do closed ← close ch q.closed; ok (drop_entry topic ch q closed, true)
    | none ↦ ok (q, false)
  ]

unfoldable pub debug_map_length : {Topic : Type 0} → QuitHandlers Topic → ℕ × ℕ
debug_map_length q = (length q.handlers, length q.topics)
