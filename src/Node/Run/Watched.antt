-- ===== src/Node/Run/Watched.antt =====
-- The clients of `RunNode` while their watchers are added, and the closing that is deferred.
use relayer.Base.{
  ℕ, suc, ◌%◌, ◌^◌, List, [], ◌∷◌, Option, none, some, Bool, true, false, ◌&&◌, ℕ_discrete, Outcome,
  ok, panic, ◌≡◌, refl, sym, ap, ◌∙◌, subst, arith, ◌⊎◌, inl, inr, Option-cases, Bool-cases,
  if_elim, if_cases,
}
use relayer.Base.Dict
use relayer.Eth.Client.{Network}
use relayer.Eth.Methods.{Reply, reply, failed, hung, crashed}
use relayer.Eth.Watchers.{Contracts, Service, Watcher, close}
use relayer.Eth.Watchers
use relayer.Eth.Watchers.Hangs.{Call, run, IsService, close_by}
use relayer.Eth.Clients.Made.{same_some}
use relayer.Eth.Clients.{get_eth_client, close_each}
use relayer.Node.Contracts.{BridgeChain}
use relayer.Node.Run.{
  RunEnd, returned, exits, panics, hangs, Running, added, after, watch_requests, watch_all,
  after_epoch, deferred,
}
use relayer.Node.Run.Clients.{
  Each, Follows, get-Each, put-Each, run-Follows, asked-Follows, add_watcher-Follows,
}

pub added_elim :
    {A : Type 0} (P : A → Type 0) (r : Reply (Unit {0})) (x : RunEnd → A) (y : A)
    → P (x hangs)
    → P (x panics)
    → P y
    → P (elim (added r) as (λ z. A) [ none ↦ y | some end ↦ x end ])
unfolding added
added_elim P (reply u) x y h c g = g
added_elim P failed x y h c g = g
added_elim P hung x y h c g = h
added_elim P crashed x y h c g = c

end_elim :
    {A : Type 0} (P : A → Type 0) (o : Option RunEnd) (x : RunEnd → A) (y : A)
    → ((end : RunEnd) → P (x end))
    → P y
    → P (elim o as (λ z. A) [ none ↦ y | some end ↦ x end ])
end_elim P none x y p q = q
end_elim P (some end) x y p q = p end

module _ {Conn : Type 0} (contracts : Contracts Conn) where
  after-Each :
      (calls : ℕ → List (Call contracts)) (m : List (ℕ × Service Conn))
      → Each contracts (IsService contracts) m
      → Each contracts (IsService contracts) (after contracts calls m)
  unfolding after
  after-Each calls [] e = e
  after-Each calls ((i, t) ∷ m) (h, e) =
      ((run-Follows contracts (calls i) t h).0, after-Each calls m e)

  get-after :
      (id : ℕ) (calls : ℕ → List (Call contracts)) (m : List (ℕ × Service Conn)) (s : Service Conn)
      → Dict.get ℕ_discrete id m ≡ some s
      → Dict.get ℕ_discrete id (after contracts calls m) ≡ some (run contracts (calls id) s)
  unfolding after Dict.get
  get-after id calls [] s there = absurd (cc)
  get-after id calls ((i, t) ∷ m) s there = ground (arith, get-after id calls m s)

  -- Every client is fit to be called, and the one of a chain has its loop.
  pub record Runs (id : ℕ) (m : List (ℕ × Service Conn)) : Type 0 where
    pub each : Each contracts (IsService contracts) m
    pub service : Service Conn
    pub there : Dict.get ℕ_discrete id m ≡ some service
    pub on : service.client.sub_loop_initialized ≡ true

  pub after-Runs :
      (id : ℕ) (calls : ℕ → List (Call contracts)) (m : List (ℕ × Service Conn))
      → Runs id m
      → Runs id (after contracts calls m)
  after-Runs id calls m r = record {
    each = after-Each calls m r.each;
    service = run contracts (calls id) r.service;
    there = get-after id calls m r.service r.there;
    on =
        (run-Follows contracts (calls id) r.service
            (get-Each contracts (IsService contracts) id m r.service r.each r.there)).1
          r.on;
  }

  put-Runs :
      (id i : ℕ) (s t : Service Conn) (m : List (ℕ × Service Conn))
      → Dict.get ℕ_discrete i m ≡ some s
      → Follows contracts s t
      → Runs id m
      → Runs id (Dict.put ℕ_discrete i t m)
  put-Runs id i s t m there f r =
      let each = put-Each contracts (IsService contracts) i t m f.0 r.each in
      elim (ℕ_discrete i id) as (λ d. Runs id (Dict.put ℕ_discrete i t m)) [
        | yes same ↦ record {
          each = each;
          service = t;
          there = ground (arith, Dict.get-put ℕ_discrete id i t m, same);
          on = f.1 (
              subst (λ (v : Service Conn). v.client.sub_loop_initialized ≡ true)
                (same_some contracts
                  (sym r.there ∙ ap (λ j. Dict.get ℕ_discrete j m) (sym same) ∙ there))
                r.on);
        }
        | no other ↦ record {
          each = each;
          service = r.service;
          there = ground (arith, Dict.get-put ℕ_discrete id i t m, other, r.there);
          on = r.on;
        }
      ]

  close_each-hangs :
      (id : ℕ) (m : List (ℕ × Service Conn)) (s : Service Conn)
      → Each contracts (IsService contracts) m
      → Dict.get ℕ_discrete id m ≡ some s
      → s.client.sub_loop_initialized ≡ true
      → (close_each contracts m).0 ≡ hung
  unfolding close_each Dict.get
  close_each-hangs id [] s e there on = absurd (cc)
  close_each-hangs id ((i, t) ∷ m) s (h, e) there on =
      elim (Bool-cases t.client.sub_loop_initialized) [
        | inl up ↦ ground (arith, close_by contracts true t (record { service = h; same = up }))
        | inr down ↦ ground (
          arith,
          close_by contracts false t (record { service = h; same = down }),
          close_each-hangs id m s e,
        )
      ]

  pub deferred-hangs :
      (id : ℕ) (a : Running contracts) (e : RunEnd) (m : List (ℕ × Service Conn))
      → Runs id m
      → (deferred contracts e a m ≡ hangs) ⊎ (e ≡ exits)
  unfolding deferred
  deferred-hangs id a e m r =
      let late = after-Runs id a.before_close m r in
      let waits =
        close_each-hangs id (after contracts a.before_close m) late.service late.each late.there
          late.on in
      elim e as (λ x. (deferred contracts x a m ≡ hangs) ⊎ (x ≡ exits)) [
        | returned b ↦ inl (ground (arith, waits))
        | exits ↦ inr refl
        | panics ↦ inl (ground (arith, waits))
        | hangs ↦ inl refl
      ]

  watch_requests-Runs :
      (id : ℕ) (chain : BridgeChain) (a : Running contracts) (nets ids : ℕ → Network Conn)
      (m : List (ℕ × Service Conn))
      → Runs id m
      → Runs id (watch_requests contracts chain a nets ids m).1
  unfolding watch_requests get_eth_client
  watch_requests-Runs id chain a nets ids m r =
      elim (Option-cases (Dict.get ℕ_discrete (chain.identifier % 2 ^ 64) m)) [
        | inl missing ↦
            rw (missing, watch_requests)
              (if_elim (λ (o : Option RunEnd × List (ℕ × Service Conn)). Runs id o.1)
                (a.request_watcher chain.bridge_address) _ _ r r)
        | inr (s, there) ↦
            let one =
              add_watcher-Follows contracts (a.request_key chain.bridge_address) nets s
                (get-Each contracts (IsService contracts) _ m s r.each there) in
            let watched =
              Watchers.add_watcher contracts (a.request_key chain.bridge_address) nets s in
            let asked = asked-Follows contracts ids watched.1 one.0 in
            let next = put-Runs id (chain.identifier % 2 ^ 64) s watched.1 m there one r in
            rw (there, watch_requests)
              (if_elim (λ (o : Option RunEnd × List (ℕ × Service Conn)). Runs id o.1)
                (a.request_watcher chain.bridge_address) _ _
                (added_elim (λ (o : Option RunEnd × List (ℕ × Service Conn)). Runs id o.1) watched.0
                  _ _ next next
                  (put-Runs id (chain.identifier % 2 ^ 64) s _ m there
                    (asked.0, λ on. asked.1 (one.1 on)) r))
                r)
      ]

  watch_all-Runs :
      (id : ℕ) (chains : List BridgeChain) (a : Running contracts) (nets ids : ℕ → ℕ → Network Conn)
      (m : List (ℕ × Service Conn))
      → Runs id m
      → Runs id (watch_all contracts chains a nets ids m).1
  unfolding watch_all
  watch_all-Runs id [] a nets ids m r = r
  watch_all-Runs id (chain ∷ chains) a nets ids m r =
      let one = watch_requests-Runs id chain a (nets 0) (ids 0) m r in
      let first = watch_requests contracts chain a (nets 0) (ids 0) m in
      end_elim (λ (o : RunEnd × List (ℕ × Service Conn)). Runs id o.1) first.0 _ _ (λ end. one)
        (watch_all-Runs id chains a (λ i. nets (suc i)) (λ i. ids (suc i)) first.1 one)

  pub after_epoch-Runs :
      (id : ℕ) (chains : List BridgeChain) (a : Running contracts) (m : List (ℕ × Service Conn))
      (o : Outcome Bool)
      → Runs id m
      → Runs id (after_epoch contracts chains a m o).1
  unfolding after_epoch
  after_epoch-Runs id chains a m (panic cause) r = r
  after_epoch-Runs id chains a m (ok started) r =
      if_elim (λ (o : RunEnd × List (ℕ × Service Conn)). Runs id o.1) (started && a.ledger) _ _
        (watch_all-Runs id chains a a.request_nets a.chain_nets m r) r

  pub after_epoch-exits :
      (chains : List BridgeChain) (a : Running contracts) (m : List (ℕ × Service Conn))
      (o : Outcome Bool)
      → (after_epoch contracts chains a m o).0 ≡ exits
      → (o ≡ ok true) × (a.ledger ≡ true)
  unfolding after_epoch
  after_epoch-exits chains a m (panic cause) e = absurd (cc)
  after_epoch-exits chains a m (ok false) e = absurd (cc)
  after_epoch-exits chains a m (ok true) e =
      if_cases
        (λ (o : RunEnd × List (ℕ × Service Conn)).
          o.0 ≡ exits → (ok true ≡ ok true) × (a.ledger ≡ true))
        a.ledger _ _ (λ on q. (refl, on)) (λ off q. absurd (cc)) e
