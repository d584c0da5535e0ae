-- ===== src/Eth/Methods/Waiting.antt =====
-- `CallOpt` of extChains/eth/client_methods.go.
use relayer.Base.{
  ℕ, ◌*◌, ◌<◌, ◌≤◌, ◌-◌, ◌^◌, Bytes, Option, none, some, ◌≡◌, refl, sym, ap, subst, ◌∙◌, arith,
}
use relayer.Base.Int.{pos, negsuc}
use relayer.Eth.Client.{Network, Client}
use relayer.Eth.Client.Connect.{IsClient}
use relayer.Eth.Methods.{
  Reply, reply, failed, hung, crashed, Backend, with_client, chain_id, and_then, pending_nonce_at,
  suggest_gas_price, TransactOpts, to_int64, transact_opts, call_opt,
}
use relayer.Eth.Methods.Calls.{Reached, with_client-Answers, chain_id_lem}

module _ {Conn : Type 0} (backend : Backend Conn) where
  and_then-eq-reply :
      {A B : Type 0} (r : Reply A × Client Conn) (next : A → Client Conn → Reply B × Client Conn)
      (b : B)
      → (and_then r next).0 ≡ reply b
      → (a : A) × (r.0 ≡ reply a) × ((next a r.1).0 ≡ reply b)
  and_then-eq-reply (reply a, c) next b e = (a, refl, e)
  and_then-eq-reply (failed, c) next b e = absurd (cc)
  and_then-eq-reply (hung, c) next b e = absurd (cc)
  and_then-eq-reply (crashed, c) next b e = absurd (cc)

  or_failed :
      {A B : Type 0} (o : Option A) (c : Client Conn) (next : A → Reply B × Client Conn) (b : B)
      → (elim o as (λ x. Reply B × Client Conn) [ none ↦ (failed, c) | some a ↦ next a ]).0
        ≡ reply b
      → (a : A) × (o ≡ some a) × ((next a).0 ≡ reply b)
  or_failed none c next b e = absurd (cc)
  or_failed (some a) c next b e = (a, refl, e)

  same_some : {A : Type 0} {x y : A} → some x ≡ some y → x ≡ y
  same_some e = cc

  or_crashed :
      {A B : Type 0} (o : Option A) (c : Client Conn) (make : A → B) (b : B)
      → (elim o as (λ x. Reply B × Client Conn) [
        | none ↦ (crashed, c)
        | some a ↦ (reply (make a), c)
      ]).0
        ≡ reply b
      → (a : A) × (o ≡ some a) × (make a ≡ b)
  or_crashed none c make b e = absurd (cc)
  or_crashed (some a) c make b e = (a, refl, cc)

  transact_opts_lem :
      (key : backend.PrivateKey) (nonce price chain : ℕ) (c : Client Conn)
      (opts : TransactOpts backend.Signer)
      → (transact_opts backend key nonce price chain c).0 ≡ reply opts
      → (backend.keyed_transactor key chain ≡ some opts.signer)
        × (opts.gas_price ≡ price * 2)
        × (opts.value ≡ 0)
        × (nonce < 2 ^ 63 → opts.nonce ≡ pos nonce)
        × (2 ^ 63 ≤ nonce → opts.nonce ≡ negsuc (2 ^ 64 - 1 - nonce))
  unfolding transact_opts to_int64
  transact_opts_lem key nonce price chain c opts e =
      let (signer, made, same) =
        or_crashed (backend.keyed_transactor key chain) c
          (λ s. record { signer = s; nonce = to_int64 nonce; value = 0; gas_price = price * 2 })
          opts e in
      (
        made ∙ ap (λ o. some (o.signer)) same,
        ap (λ o. o.gas_price) (sym same),
        ap (λ o. o.value) (sym same),
        λ small. ap (λ o. o.nonce) (sym same) ∙ ground (arith, small),
        λ large. ap (λ o. o.nonce) (sym same) ∙ ground (arith, large),
      )

  -- What `CallOpt` gives, whatever the network answers: options for the key on the client's own
  -- chain, with a nonce and twice a gas price that connections answered which were to that chain when
  -- they were checked, or took the place of such a one. A nonce below 2^63 keeps its value, where a
  -- larger one turns negative.
  pub call_opt_lem :
      (key : backend.PrivateKey) (nets : ℕ → ℕ → Network Conn) (c : Client Conn)
      (opts : TransactOpts backend.Signer)
      → IsClient c
      → (call_opt backend key nets c).0 ≡ reply opts
      → (address : Bytes) × (nonce : ℕ) × (price : ℕ) × (conn : Conn) × (conn' : Conn)
        × (backend.address_of key ≡ some address)
        × Reached (nets 0) c.chain_id conn
        × (backend.pending_nonce_at conn address ≡ some nonce)
        × Reached (nets 1) c.chain_id conn'
        × (backend.suggest_gas_price conn' ≡ some price)
        × (backend.keyed_transactor key c.chain_id ≡ some opts.signer)
        × (opts.gas_price ≡ price * 2)
        × (opts.value ≡ 0)
        × (nonce < 2 ^ 63 → opts.nonce ≡ pos nonce)
        × (2 ^ 63 ≤ nonce → opts.nonce ≡ negsuc (2 ^ 64 - 1 - nonce))
  unfolding call_opt pending_nonce_at suggest_gas_price
  call_opt_lem key nets c opts h e =
      let (address, named, e0) = or_failed (backend.address_of key) c _ opts e in
      let ask = λ (conn : Conn). backend.pending_nonce_at conn address in
      let a = with_client-Answers ask (nets 0) c h in
      let (nonce, n, e1) = and_then-eq-reply (with_client ask (nets 0) c) _ opts e0 in
      let c1 = (with_client ask (nets 0) c).1 in
      let b = with_client-Answers backend.suggest_gas_price (nets 1) c1 a.stays in
      let (price, p, e2) =
        and_then-eq-reply (with_client backend.suggest_gas_price (nets 1) c1) _ opts e1 in
      let c2 = (with_client backend.suggest_gas_price (nets 1) c1).1 in
      let d = chain_id_lem (nets 2) c2 b.stays in
      let (chain, q, e3) = and_then-eq-reply (chain_id (nets 2) c2) _ opts e2 in
      let (conn, right, answered) = a.own_chain nonce n in
      let (conn', right', answered') = b.own_chain price p in
      let last = transact_opts_lem key nonce price chain _ opts e3 in
      let same : chain ≡ c.chain_id = d.0 chain q ∙ b.same_chain ∙ a.same_chain in
      (
        address,
        nonce,
        price,
        conn,
        conn',
        named,
        right,
        answered,
        subst (λ id. Reached (nets 1) id conn') a.same_chain right',
        answered',
        ap (backend.keyed_transactor key) (sym same) ∙ last.0,
        last.1,
        last.2,
        last.3,
        last.4,
      )
