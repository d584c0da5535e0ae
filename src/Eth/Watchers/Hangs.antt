-- ===== src/Eth/Watchers/Hangs.antt =====
-- Where the watchers' goroutines of extChains/eth wait for ever.
use relayer.Base.{
  ℕ, suc, ◌-◌, ◌==◌, ◌||◌, List, [], ◌∷◌, Bytes, bytes_discrete, Option, none, some, Bool, true,
  false, if◌then◌else◌, ◌≡◌, refl, sym, ap, ◌∙◌, subst, arith, ◌⊎◌, inl, inr, Option-cases,
  Bool-cases, if_elim, if_cases, In,
}
use relayer.Base.Dict
use relayer.Eth.Client.{Network, Client, Got, got, refused, hangs, send_resubscribe_signal}
use relayer.Eth.Client.Connect.{IsClient, first_usable, taken, chosen, get_client-eq}
use relayer.Eth.Methods.{Reply, reply, failed, hung, crashed}
use relayer.Eth.Methods.Calls.{with_client-Answers, chosen-Fine}
use relayer.Eth.Watchers.{
  Watcher, Contracts, Service, new_client_watcher, watch_logs, subscribed_by, subscribe,
  resubscribe_each, get_all_watchers, get_unsubscribed_watchers, on_signal, reconnected, on_timer,
  sub_loop, add_watcher, remove_watcher, on_subscription_error, on_log, event_done, close,
  close_watchers, close_watcher,
}

reply_elim :
    {A : Type 0} (P : A → Type 0) (r : Reply (Unit {0})) (x y z w : A)
    → P x
    → P y
    → P z
    → P w
    → P (elim r [ reply u ↦ x | failed ↦ y | hung ↦ z | crashed ↦ w ])
reply_elim P (reply u) x y z w p q r s = p
reply_elim P failed x y z w p q r s = q
reply_elim P hung x y z w p q r s = r
reply_elim P crashed x y z w p q r s = s

module _ {Conn : Type 0} (contracts : Contracts Conn) where
  -- how often the loop is counted
  abbrev pub once : Bool → ℕ
  once b = if b then 1 else 0

  pub record IsService (s : Service Conn) : Type 0 where
    pub fit : IsClient s.client
    pub counted : s.loops ≡ once s.client.sub_loop_initialized

  -- The service is fit, and its loop runs as it did.
  pub record Keeps (started : Bool) (s : Service Conn) : Type 0 where
    pub service : IsService s
    pub same : s.client.sub_loop_initialized ≡ started

  abbrev After : Bool → Reply (Unit {0}) × Service Conn → Type 0
  After started r = Keeps started r.1

  -- A client that a call left can take the place of the one before.
  pub swapped-Keeps :
      (started : Bool) (s : Service Conn) (c : Client Conn) (ws : List (Bytes × Watcher))
      (timer : Bool)
      → IsClient c
      → c.sub_loop_initialized ≡ s.client.sub_loop_initialized
      → Keeps started s
      → Keeps started (record s { client = c; watchers = ws; reconnect_on_timer = timer })
  swapped-Keeps started s c ws timer h e k = record {
    service = record { fit = h; counted = k.service.counted ∙ ap once (sym e) };
    same = e ∙ k.same;
  }

  watch_logs-Fit :
      (key : Bytes) (nets : ℕ → Network Conn) (c : Client Conn)
      → IsClient c
      → IsClient (watch_logs contracts key nets c).1
        × ((watch_logs contracts key nets c).1.sub_loop_initialized ≡ c.sub_loop_initialized)
  unfolding watch_logs
  watch_logs-Fit key nets c h = elim (Bool-cases (contracts.topics_made key)) [
    | inl made ↦
        let a =
          with_client-Answers (λ conn. if contracts.subscribes conn key then some tt else none) nets
            c h in
        rw made (a.stays, a.same_loop)
    | inr not_made ↦ rw not_made (h, refl)
  ]

  resubscribe_each-Keeps :
      (started : Bool) (ws : List (Bytes × Watcher)) (nets : ℕ → ℕ → Network Conn)
      (s : Service Conn)
      → Keeps started s
      → Keeps started (resubscribe_each contracts ws nets s).1
  unfolding resubscribe_each subscribe
  resubscribe_each-Keeps started [] nets s k = k
  resubscribe_each-Keeps started ((key, w) ∷ ws) nets s k =
      let r = watch_logs contracts key (nets 0) s.client in
      let (fit, loop) = watch_logs-Fit key (nets 0) s.client k.service.fit in
      let put = Dict.put bytes_discrete key (subscribed_by contracts r.0 w) s.watchers in
      let next = swapped-Keeps started s r.1 put s.reconnect_on_timer fit loop k in
      let late = swapped-Keeps started s r.1 put true fit loop k in
      let rest = resubscribe_each-Keeps started ws (λ i. nets (suc i)) _ next in
      reply_elim (After started) r.0 _ _ _ _ rest late next next

  -- A round of the loop, a call from outside, or a subscription's error; the networks of the round
  -- are its argument.
  pub data Call : Type 0 where
    signal : (ℕ → ℕ → Network Conn) → Call
    timer : (ℕ → Network Conn) → Call
    add : Bytes → (ℕ → Network Conn) → Call
    remove : Bytes → Call
    subscription_error : Bool → Bytes → Call
    log done : Call

  -- A goroutine that comes to a full channel has not run yet.
  abbrev pub run_call : Call → Service Conn → Service Conn
  run_call (signal nets) s = (on_signal contracts nets s).1
  run_call (timer nets) s = (on_timer contracts nets s).1
  run_call (add key nets) s = (add_watcher contracts key nets s).1
  run_call (remove key) s = (remove_watcher contracts key s).0
  run_call (subscription_error drains key) s = elim (on_subscription_error contracts drains key s) [
    | none ↦ s
    | some next ↦ next
  ]
  run_call log s = on_log contracts s
  run_call done s = event_done contracts s

  abbrev pub run : List Call → Service Conn → Service Conn
  run [] s = s
  run (call ∷ calls) s = run calls (run_call call s)

  on_signal-Keeps :
      (started : Bool) (nets : ℕ → ℕ → Network Conn) (s : Service Conn)
      → Keeps started s
      → Keeps started (on_signal contracts nets s).1
  unfolding on_signal
  on_signal-Keeps started nets s k =
      let fit : IsClient (record s.client { signals = s.client.signals - 1 }) = record {
        no_current = k.service.fit.no_current;
        some_url = k.service.fit.some_url;
      } in
      let quiet = swapped-Keeps started s _ s.watchers false fit refl k in
      let late = swapped-Keeps started s _ s.watchers true fit refl k in
      if_elim (After started) s.client.connected _ _
        (if_elim (After started) s.client.recreated _ _
          (resubscribe_each-Keeps started (get_all_watchers contracts s) nets _ quiet)
          (resubscribe_each-Keeps started (get_unsubscribed_watchers contracts s) nets _ quiet))
        late

  reconnected-Keeps :
      (started : Bool) (s : Service Conn) (g : Got Conn) (c : Client Conn)
      → IsClient c
      → c.sub_loop_initialized ≡ s.client.sub_loop_initialized
      → Keeps started s
      → Keeps started (reconnected contracts s (some (g, c))).1
  unfolding reconnected
  reconnected-Keeps started s (got conn) c h e k = swapped-Keeps started s c s.watchers false h e k
  reconnected-Keeps started s refused c h e k =
      swapped-Keeps started s c s.watchers s.reconnect_on_timer h e k
  reconnected-Keeps started s hangs c h e k =
      swapped-Keeps started s c s.watchers s.reconnect_on_timer h e k

  on_timer-Keeps :
      (started : Bool) (nets : ℕ → Network Conn) (s : Service Conn)
      → Keeps started s
      → Keeps started (on_timer contracts nets s).1
  unfolding on_timer
  on_timer-Keeps started nets s k =
      let (ended, fit, chain, loop) = chosen-Fine nets s.client s.client.eth_client k.service.fit in
      let found = chosen nets s.client s.client.eth_client in
      if_elim (After started) s.reconnect_on_timer _ _
        (subst (λ o. Keeps started (reconnected contracts s o).1)
          (sym (get_client-eq 0 nets s.client k.service.fit))
          (reconnected-Keeps started s found.0 found.1 fit loop k))
        k

  sub_loop-Keeps :
      (s : Service Conn) (ws : List (Bytes × Watcher))
      → IsService s
      → Keeps true (sub_loop contracts (record s { watchers = ws }))
  unfolding sub_loop
  sub_loop-Keeps s ws h =
      if_cases (Keeps true) s.client.sub_loop_initialized _ _
        (λ on. record { service = record { fit = h.fit; counted = h.counted }; same = on })
        (λ off. record {
          service = record {
            fit = record { no_current = h.fit.no_current; some_url = h.fit.some_url };
            counted = omega (arith, h.counted ∙ ap once off);
          };
          same = refl;
        })

  pub add_watcher-fresh :
      (key : Bytes) (nets : ℕ → Network Conn) (s : Service Conn)
      → Dict.get bytes_discrete key s.watchers ≡ none
      → IsService s
      → Keeps true (add_watcher contracts key nets s).1
  unfolding add_watcher subscribe
  add_watcher-fresh key nets s e h =
      let ws = Dict.put bytes_discrete key new_client_watcher s.watchers in
      let k = sub_loop-Keeps s ws h in
      let started = sub_loop contracts (record s { watchers = ws }) in
      let r = watch_logs contracts key nets started.client in
      let (fit, loop) = watch_logs-Fit key nets started.client k.service.fit in
      let put =
        Dict.put bytes_discrete key (subscribed_by contracts r.0 new_client_watcher)
          started.watchers in
      let next = swapped-Keeps true started r.1 put started.reconnect_on_timer fit loop k in
      rw (e, add_watcher) (reply_elim (After true) r.0 _ _ _ _ next next next next)

  pub add_watcher-again :
      (key : Bytes) (nets : ℕ → Network Conn) (s : Service Conn) (w : Watcher)
      → Dict.get bytes_discrete key s.watchers ≡ some w
      → (add_watcher contracts key nets s).1 ≡ s
  unfolding add_watcher
  add_watcher-again key nets s w e = rw (e, add_watcher) refl

  -- the loop runs after a call if it ran before, or the call added a watcher
  abbrev pub adds : Call → Bool
  adds (signal nets) = false
  adds (timer nets) = false
  adds (add key nets) = true
  adds (remove key) = false
  adds (subscription_error drains key) = false
  adds log = false
  adds done = false

  -- what is left where there is room for a signal
  abbrev Sent : Client Conn → Option (Client Conn) → Type 0
  Sent c none = Unit {0}
  Sent c (some sent) = IsClient sent × (sent.sub_loop_initialized ≡ c.sub_loop_initialized)

  send_resubscribe_signal-Sent :
      (drains : Bool) (c : Client Conn) → IsClient c → Sent c (send_resubscribe_signal drains c)
  unfolding send_resubscribe_signal
  send_resubscribe_signal-Sent drains c h =
      if_elim (Sent c) c.sub_loop_initialized _ _
        (if_elim (Sent c) (c.signals == 0 || drains) _ _
          (record { no_current = h.no_current; some_url = h.some_url }, refl) tt)
        (h, refl)

  with_signal-Keeps :
      (started : Bool) (s : Service Conn) (ws : List (Bytes × Watcher)) (o : Option (Client Conn))
      → Sent s.client o
      → Keeps started s
      → Keeps started
          (elim (elim o as (λ x. Option (Service Conn)) [
            | none ↦ none
            | some c ↦ some (record s { client = c; watchers = ws })
          ]) [ none ↦ s | some next ↦ next ])
  with_signal-Keeps started s ws none f k = k
  with_signal-Keeps started s ws (some c) f k =
      swapped-Keeps started s c ws s.reconnect_on_timer f.0 f.1 k

  on_subscription_error-Keeps :
      (started drains : Bool) (key : Bytes) (s : Service Conn)
      → Keeps started s
      → Keeps started (run_call (subscription_error drains key) s)
  unfolding on_subscription_error
  on_subscription_error-Keeps started drains key s k =
      with_signal-Keeps started s _ (send_resubscribe_signal drains s.client)
        (send_resubscribe_signal-Sent drains s.client k.service.fit) k

  removed-Keeps :
      (started : Bool) (key : Bytes) (s : Service Conn) (o : Option Watcher)
      → Keeps started s
      → Keeps started
          (elim o as (λ x. Service Conn × Option Watcher) [
            | none ↦ (s, none)
            | some w ↦ (
              record s { watchers = Dict.delete bytes_discrete key s.watchers },
              some (close_watcher w),
            )
          ]).0
  removed-Keeps started key s none k = k
  removed-Keeps started key s (some w) k =
      swapped-Keeps started s s.client (Dict.delete bytes_discrete key s.watchers)
        s.reconnect_on_timer k.service.fit refl k

  pub run_call-Keeps :
      (started : Bool) (call : Call) (s : Service Conn)
      → (started ≡ true) ⊎ (adds call ≡ false)
      → Keeps started s
      → Keeps started (run_call call s)
  unfolding remove_watcher on_log event_done
  run_call-Keeps started (signal nets) s d k = on_signal-Keeps started nets s k
  run_call-Keeps started (timer nets) s d k = on_timer-Keeps started nets s k
  run_call-Keeps started (add key nets) s (inl on) k =
      elim (Option-cases (Dict.get bytes_discrete key s.watchers)) [
        | inl fresh ↦
            subst (λ b. Keeps b (run_call (add key nets) s)) (sym on)
              (add_watcher-fresh key nets s fresh k.service)
        | inr (w, e) ↦ subst (Keeps started) (sym (add_watcher-again key nets s w e)) k
      ]
  run_call-Keeps started (add key nets) s (inr no_add) k = absurd (cc)
  run_call-Keeps started (remove key) s d k =
      removed-Keeps started key s (Dict.get bytes_discrete key s.watchers) k
  run_call-Keeps started (subscription_error drains key) s d k =
      on_subscription_error-Keeps started drains key s k
  run_call-Keeps started log s d k = record {
    service = record { fit = k.service.fit; counted = k.service.counted };
    same = k.same;
  }
  run_call-Keeps started done s d k = record {
    service = record { fit = k.service.fit; counted = k.service.counted };
    same = k.same;
  }

  pub run-Keeps :
      (started : Bool) (calls : List Call) (s : Service Conn)
      → ((call : Call) → In call calls → (started ≡ true) ⊎ (adds call ≡ false))
      → Keeps started s
      → Keeps started (run calls s)
  run-Keeps started [] s d k = k
  run-Keeps started (call ∷ calls) s d k =
      run-Keeps started calls (run_call call s) (λ c i. d c (inr i))
        (run_call-Keeps started call s (d call (inl refl)) k)

  pub close_by :
      (started : Bool) (s : Service Conn)
      → Keeps started s
      → (close contracts s).0
        ≡ (if started then hung else reply (close_watchers contracts s.watchers))
  unfolding close
  close_by true s k = ground (arith, k.service.counted ∙ ap once k.same)
  close_by false s k = ground (arith, k.service.counted ∙ ap once k.same)

  -- `Close` hangs once a watcher was added, whatever happens in between, since the wait group counts
  -- the loop's goroutine and nothing takes it off; without a call of `AddWatcher` it returns.
  pub close_lem :
      (calls : List Call) (s : Service Conn)
      → IsService s
      → ((key : Bytes) (nets : ℕ → Network Conn)
          → Dict.get bytes_discrete key s.watchers ≡ none
          → (close contracts (run calls (add_watcher contracts key nets s).1)).0 ≡ hung)
        × (s.client.sub_loop_initialized ≡ false
            → ((call : Call) → In call calls → adds call ≡ false)
            → (close contracts (run calls s)).0
              ≡ reply (close_watchers contracts (run calls s).watchers))
  close_lem calls s h = (
    λ key nets fresh.
        close_by true _
          (run-Keeps true calls _ (λ c i. inl refl) (add_watcher-fresh key nets s fresh h)),
    λ off none_adds.
        close_by false _ (
          run-Keeps false calls s (λ c i. inr (none_adds c i))
            (record { service = h; same = off })),
  )

  -- The loop's own reconnection hangs, with the client's mutex held, when a signal is still waiting
  -- in its channel, which nobody else takes: it has no connection, its timer is on, and a url can be used again.
  pub on_timer_hangs :
      (nets : ℕ → Network Conn) (s : Service Conn) (conn : Conn)
      → IsService s
      → s.reconnect_on_timer ≡ true
      → s.client.sub_loop_initialized ≡ true
      → s.client.signals ≡ 1
      → (nets 0).drains ≡ false
      → s.client.eth_client ≡ none
      → first_usable (nets 0) s.client.chain_id s.client.urls ≡ some conn
      → (on_timer contracts nets s).0 ≡ hung
  unfolding on_timer reconnected
  on_timer_hangs nets s conn h on loop full own off usable =
      let got_client =
        get_client-eq 0 nets s.client h.fit
        ∙ ap some (ap (chosen nets s.client) off ∙ ap (taken (nets 0).drains s.client) usable) in
      if_cases (λ (o : Reply (Unit {0}) × Service Conn). o.0 ≡ hung) s.reconnect_on_timer _ _
        (λ same.
          ap (λ o. (reconnected contracts s o).0) got_client ∙ ground (arith, loop, full, own))
        (λ stopped. absurd (cc))
