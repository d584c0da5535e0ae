-- ===== src/Node/Run/Clients.antt =====
-- A list of clients, and what the calls of their goroutines and of `RunNode` leave of each.
use relayer.Base.{
  ℕ, List, [], ◌∷◌, Bytes, bytes_discrete, Option, some, true, false, ℕ_discrete, ◌≡◌, refl, sym,
  ◌∙◌, subst, inl, inr, Option-cases, ite_elim,
}
use relayer.Base.Dict
use relayer.Eth.Client.{Network}
use relayer.Eth.Methods.{chain_id}
use relayer.Eth.Methods.Calls.{chain_id_lem}
use relayer.Eth.Watchers.{Contracts, Service, Watcher, close}
use relayer.Eth.Watchers
use relayer.Eth.Watchers.Hangs.{
  Call, signal, timer, add, remove, subscription_error, log, done, adds, run, run_call, IsService,
  swapped-Keeps, run-Keeps, run_call-Keeps, add_watcher-again, add_watcher-fresh,
}
use relayer.Eth.Clients.Made.{same_some}

module _ {Conn : Type 0} (contracts : Contracts Conn) where
  abbrev pub Each : (Service Conn → Type 0) → List (ℕ × Service Conn) → Type 0
  Each P [] = Unit {0}
  Each P ((id, s) ∷ m) = P s × Each P m

  -- A service keeps its invariant, and its loop once it runs.
  abbrev pub Follows : Service Conn → Service Conn → Type 0
  Follows s t =
      IsService contracts t
      × (s.client.sub_loop_initialized ≡ true → t.client.sub_loop_initialized ≡ true)

  kept-Service :
      (call : Call contracts) (s : Service Conn)
      → adds contracts call ≡ false
      → IsService contracts s
      → IsService contracts (run_call contracts call s)
  kept-Service call s quiet h =
      (run_call-Keeps contracts s.client.sub_loop_initialized call s (inr quiet)
        (record { service = h; same = refl })).service

  run_call-Service :
      (call : Call contracts) (s : Service Conn)
      → IsService contracts s
      → IsService contracts (run_call contracts call s)
  run_call-Service (signal nets) s h = kept-Service (signal nets) s refl h
  run_call-Service (timer nets) s h = kept-Service (timer nets) s refl h
  run_call-Service (add key nets) s h =
      elim (Option-cases (Dict.get bytes_discrete key s.watchers)) [
        | inl fresh ↦ (add_watcher-fresh contracts key nets s fresh h).service
        | inr (w, e) ↦
            subst (IsService contracts) (sym (add_watcher-again contracts key nets s w e)) h
      ]
  run_call-Service (remove key) s h = kept-Service (remove key) s refl h
  run_call-Service (subscription_error drains key) s h =
      kept-Service (subscription_error drains key) s refl h
  run_call-Service log s h = kept-Service log s refl h
  run_call-Service done s h = kept-Service done s refl h

  pub run-Follows :
      (calls : List (Call contracts)) (s : Service Conn)
      → IsService contracts s
      → Follows s (run contracts calls s)
  run-Follows [] s h = (h, λ on. on)
  run-Follows (call ∷ calls) s h = (
    (run-Follows calls (run_call contracts call s) (run_call-Service call s h)).0,
    λ on.
        (run-Keeps contracts true (call ∷ calls) s (λ c i. inl refl)
          (record { service = h; same = on })).same,
  )

  -- A client whose number was asked for.
  pub asked-Follows :
      (nets : ℕ → Network Conn) (s : Service Conn)
      → IsService contracts s
      → Follows s (record s { client = (chain_id nets s.client).1 })
  asked-Follows nets s h =
      let a = chain_id_lem nets s.client h.fit in
      let k =
        swapped-Keeps contracts s.client.sub_loop_initialized s _ s.watchers s.reconnect_on_timer
          a.1 a.2 (record { service = h; same = refl }) in
      (k.service, λ on. k.same ∙ on)

  pub get-Each :
      (P : Service Conn → Type 0) (id : ℕ) (m : List (ℕ × Service Conn)) (s : Service Conn)
      → Each P m
      → Dict.get ℕ_discrete id m ≡ some s
      → P s
  unfolding Dict.get
  get-Each P id [] s e there = absurd (cc)
  get-Each P id ((i, t) ∷ m) s (h, e) there =
      ite_elim (λ (o : Option (Service Conn)). o ≡ some s → P s) (ℕ_discrete i id) (some t)
        (Dict.get ℕ_discrete id m) (λ here q. subst P (same_some contracts q) h)
        (λ other q. get-Each P id m s e q) there

  delete-Each :
      (P : Service Conn → Type 0) (id : ℕ) (m : List (ℕ × Service Conn))
      → Each P m
      → Each P (Dict.delete ℕ_discrete id m)
  unfolding Dict.delete
  delete-Each P id [] e = e
  delete-Each P id ((i, t) ∷ m) (h, e) =
      ite_elim (Each P) (ℕ_discrete i id) _ _ (λ here. delete-Each P id m e)
        (λ other. (h, delete-Each P id m e))

  pub put-Each :
      (P : Service Conn → Type 0) (id : ℕ) (s : Service Conn) (m : List (ℕ × Service Conn))
      → P s
      → Each P m
      → Each P (Dict.put ℕ_discrete id s m)
  unfolding Dict.put
  put-Each P id s m h e = (h, delete-Each P id m e)

  pub add_watcher-Follows :
      (key : Bytes) (nets : ℕ → Network Conn) (s : Service Conn)
      → IsService contracts s
      → Follows s (Watchers.add_watcher contracts key nets s).1
  add_watcher-Follows key nets s h = run-Follows (add key nets ∷ []) s h
