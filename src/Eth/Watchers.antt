-- ===== src/Eth/Watchers.antt =====
-- The watchers of extChains/eth/client.go and watcher.go, and the goroutine that subscribes them
-- again. A watcher goes by its key, the address and name of its contract. A method that comes to a
-- full channel from which the loop takes nothing, or waits for a goroutine that does not end, hangs.
pub mod Hangs
use relayer.Base.{
  ℕ, suc, ◌+◌, ◌-◌, ◌==◌, ◌&&◌, not, List, [], ◌∷◌, ◌++◌, Bytes, bytes_discrete, Option, none, some,
  Bool, true, false, if◌then◌else◌,
}
use relayer.Base.Dict
use relayer.Eth.Client.{
  Network, Client, Got, got, refused, hangs, get_client, send_resubscribe_signal,
}
use relayer.Eth.Methods.{Reply, reply, failed, hung, crashed, with_client}

-- the fields of `clientWatcher` that change; the log cache is Eth/LogCache
pub record Watcher : Type 0 where
  -- whether `sub` is not nil
  pub has_sub : Bool
  pub subscribed : Bool
  pub cancelled : Bool

-- What a watcher needs of its contract and of go-ethereum: whether its topics can be made, and
-- whether a connection subscribes to its logs.
pub record Contracts (Conn : Type 0) : Type 0 where
  pub topics_made : Bytes → Bool
  pub subscribes : Conn → Bytes → Bool

pub record Service (Conn : Type 0) : Type 0 where
  pub client : Client Conn
  pub watchers : List (Bytes × Watcher)
  pub reconnect_on_timer : Bool
  -- whether the context is done
  pub cancelled : Bool
  -- how many of the goroutines that the wait group counts are at work on an event, and how often
  -- the loop was counted
  pub events : ℕ
  pub loops : ℕ

unfoldable pub watcher_key : Bytes → Bytes → Bytes
watcher_key address name = address ++ (58 ∷ name)

unfoldable pub new_client_watcher : Watcher
new_client_watcher = record { has_sub = false; subscribed = false; cancelled = false }

unfoldable pub is_subscribed : Watcher → Bool
is_subscribed w = w.subscribed

unfoldable pub set_subscribed : Bool → Watcher → Watcher
set_subscribed b w = record w { subscribed = b }

-- `Close` of a watcher: it unsubscribes where it has a subscription, and cancels its context
unfoldable pub close_watcher : Watcher → Watcher
close_watcher w = record w { cancelled = true }

module _ {Conn : Type 0} (contracts : Contracts Conn) where
  -- `watchLogs`
  unfoldable pub watch_logs :
      Bytes → (ℕ → Network Conn) → Client Conn → Reply (Unit {0}) × Client Conn
  watch_logs key nets c =
      if contracts.topics_made key
      then with_client (λ conn. if contracts.subscribes conn key then some tt else none) nets c
      else (failed, c)

  -- what `Subscribe` and `Resubscribe` do with the result of `watchEvents`
  unfoldable pub subscribed_by : Reply (Unit {0}) → Watcher → Watcher
  subscribed_by (reply u) w = set_subscribed true (record w { has_sub = true })
  subscribed_by failed w = set_subscribed false (record w { has_sub = false })
  subscribed_by hung w = w
  subscribed_by crashed w = w

  -- `Subscribe`, and `Resubscribe`, which differs in what it logs
  unfoldable pub subscribe :
      Bytes → (ℕ → Network Conn) → Watcher → Client Conn → Reply (Unit {0}) × Watcher × Client Conn
  subscribe key nets w c = let r = watch_logs key nets c in (r.0, subscribed_by r.0 w, r.1)

  -- the loops of `subLoop` over the watchers that it got, up to the first error; the networks of
  -- the i-th are `nets i`
  unfoldable pub resubscribe_each :
      List (Bytes × Watcher)
      → (ℕ → ℕ → Network Conn)
      → Service Conn
      → Reply (Unit {0}) × Service Conn
  resubscribe_each [] nets s = (reply tt, s)
  resubscribe_each ((key, w) ∷ ws) nets s =
      let r = subscribe key (nets 0) w s.client in
      let next = record s { client = r.2; watchers = Dict.put bytes_discrete key r.1 s.watchers } in
      let rest = resubscribe_each ws (λ i. nets (suc i)) next in
      elim r.0 [
        | reply u ↦ rest
        | failed ↦ (reply tt, record next { reconnect_on_timer = true })
        | hung ↦ (hung, next)
        | crashed ↦ (crashed, next)
      ]

  unfoldable pub get_all_watchers : Service Conn → List (Bytes × Watcher)
  get_all_watchers s = s.watchers

  unfoldable pub unsubscribed : List (Bytes × Watcher) → List (Bytes × Watcher)
  unsubscribed [] = []
  unsubscribed ((key, w) ∷ ws) =
      let rest = unsubscribed ws in if not (is_subscribed w) then (key, w) ∷ rest else rest

  unfoldable pub get_unsubscribed_watchers : Service Conn → List (Bytes × Watcher)
  get_unsubscribed_watchers s = unsubscribed s.watchers

  -- the goroutine of `subLoop` when it takes a signal
  unfoldable pub on_signal : (ℕ → ℕ → Network Conn) → Service Conn → Reply (Unit {0}) × Service Conn
  on_signal nets s =
      let taken = record s { client = record s.client { signals = s.client.signals - 1 } } in
      let quiet = record taken { reconnect_on_timer = false } in
      if s.client.connected
      then if s.client.recreated
        then resubscribe_each (get_all_watchers s) nets quiet
        else resubscribe_each (get_unsubscribed_watchers s) nets quiet
      else (reply tt, record taken { reconnect_on_timer = true })

  -- what the goroutine does with the result of `getClient` when its timer fires
  unfoldable pub reconnected :
      Service Conn → Option (Got Conn × Client Conn) → Reply (Unit {0}) × Service Conn
  reconnected s none = (hung, s)
  reconnected s (some (got conn, c)) =
      (reply tt, record s { client = c; reconnect_on_timer = false })
  reconnected s (some (refused, c)) = (reply tt, record s { client = c })
  reconnected s (some (hangs, c)) = (hung, record s { client = c })

  unfoldable pub on_timer : (ℕ → Network Conn) → Service Conn → Reply (Unit {0}) × Service Conn
  on_timer nets s =
      if s.reconnect_on_timer then reconnected s (get_client 2 nets s.client) else (reply tt, s)

  -- `subLoop`: the first call makes the channel and starts the goroutine, which is counted
  unfoldable pub sub_loop : Service Conn → Service Conn
  sub_loop s = if s.client.sub_loop_initialized then s else record s {
    client = record s.client { sub_loop_initialized = true; signals = 0 };
    loops = s.loops + 1;
  }

  -- `AddWatcher`; an error of the subscription is only logged
  unfoldable pub add_watcher :
      Bytes → (ℕ → Network Conn) → Service Conn → Reply (Unit {0}) × Service Conn
  add_watcher key nets s = elim (Dict.get bytes_discrete key s.watchers) [
    | some w ↦ (reply tt, s)
    | none ↦
        let started =
          sub_loop
            (record s { watchers = Dict.put bytes_discrete key new_client_watcher s.watchers }) in
        let r = subscribe key nets new_client_watcher started.client in
        let next = record started {
          client = r.2;
          watchers = Dict.put bytes_discrete key r.1 started.watchers;
        } in
        elim r.0 [
          | reply u ↦ (reply tt, next)
          | failed ↦ (reply tt, next)
          | hung ↦ (hung, next)
          | crashed ↦ (crashed, next)
        ]
  ]

  -- with the watcher that it closed
  unfoldable pub remove_watcher : Bytes → Service Conn → Service Conn × Option Watcher
  remove_watcher key s = elim (Dict.get bytes_discrete key s.watchers) [
    | none ↦ (s, none)
    | some w ↦
        (record s { watchers = Dict.delete bytes_discrete key s.watchers }, some (close_watcher w))
  ]

  -- `closeWatchers`, with the watchers that it closed
  unfoldable pub close_watchers : List (Bytes × Watcher) → List Watcher
  close_watchers [] = []
  close_watchers ((key, w) ∷ ws) = close_watcher w ∷ close_watchers ws

  -- the branch of a subscription's error in `watchEvents`; none while the channel is full
  -- and not drained. The
  -- watcher may have been removed by then.
  unfoldable pub on_subscription_error : Bool → Bytes → Service Conn → Option (Service Conn)
  on_subscription_error drains key s = elim (send_resubscribe_signal drains s.client) [
    | none ↦ none
    | some c ↦ some (record s {
      client = c;
      watchers = elim (Dict.get bytes_discrete key s.watchers) [
        | none ↦ s.watchers
        | some w ↦ Dict.put bytes_discrete key (set_subscribed false w) s.watchers
      ];
    })
  ]

  -- an event's goroutine starts, and ends
  unfoldable pub on_log : Service Conn → Service Conn
  on_log s = record s { events = s.events + 1 }

  unfoldable pub event_done : Service Conn → Service Conn
  event_done s = record s { events = s.events - 1 }

  -- `Close`: the goroutines of the events end, so it waits for what else is counted. The
  -- goroutine of `subLoop` ends on the context without a call of `Done`.
  unfoldable pub close : Service Conn → Reply (List Watcher) × Service Conn
  close s =
      let closed = close_watchers s.watchers in
      let done = record s { watchers = []; cancelled = true; events = 0 } in
      if s.loops == 0 then (reply closed, done) else (hung, done)
