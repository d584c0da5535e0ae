-- ===== src/Eth/Client.antt =====
-- extChains/eth/client.go: the connection of a client to one chain. A connection of go-ethereum is
-- of any type, and what the network answers is an argument of each call. What runs under the
-- client's mutex is one step.
pub mod Connect
use relayer.Base.{
  ℕ, zero, suc, List, [], ◌∷◌, Bytes, bytes_discrete, Option, none, some, Bool, true, false, ◌==◌,
  ◌&&◌, ◌||◌, not, ltb, if◌then◌else◌, length, ite,
}

-- what the network answers in one round
pub record Network (Conn : Type 0) : Type 0 where
  -- `ethclient.DialContext`; none for an error
  pub dial : Bytes → Option Conn
  -- `ChainID` of a connection
  pub chain_id : Conn → Option ℕ
  -- what the other goroutines of the client do meanwhile: whether its loop takes the signal that
  -- waits in the channel, so that one more can be sent; and what the field `ethClient` is when it is
  -- read again after the mutex is unlocked
  pub drains : Bool
  pub read_again : Conn → Option Conn

pub record Config : Type 0 where
  pub call_timeout : ℕ
  pub dial_timeout : ℕ
  pub block_timeout : ℕ
  pub identifier : ℕ
  pub urls : List Bytes

-- The mutexes and the context are not fields; the watchers are in Eth/Watchers.
pub record Client (Conn : Type 0) : Type 0 where
  pub eth_client : Option Conn
  pub chain_id : ℕ
  pub call_timeout : ℕ
  pub dial_timeout : ℕ
  pub block_timeout : ℕ
  pub connected : Bool
  pub recreated : Bool
  pub sub_loop_initialized : Bool
  -- how many signals wait in the channel `reSubWatchers`, which holds one
  pub signals : ℕ
  pub current_url : Bytes
  pub urls : List Bytes

-- how `getClient` ends: with the client's connection, nil or not, with an error, or not, since it
-- waits at a full channel from which the loop takes nothing
pub data Got (Conn : Type 0) : Type 0 where
  got : Option Conn → Got Conn
  refused hangs : Got Conn

abbrev pub default_dial_timeout : ℕ
default_dial_timeout = 10

abbrev pub default_call_timeout : ℕ
default_call_timeout = 30

abbrev pub default_block_timeout : ℕ
default_block_timeout = 120

unfoldable pub set_default : Config → Config
set_default c = record c {
  call_timeout = default_call_timeout;
  dial_timeout = default_dial_timeout;
  block_timeout = default_block_timeout;
}

module _ {Conn : Type 0} where
  -- none for `ErrClientUrlsEmpty`
  unfoldable pub new_client : Config → Option (Client Conn)
  new_client cfg =
      if length cfg.urls == 0
      then none
      else some (record {
        eth_client = none;
        chain_id = cfg.identifier;
        call_timeout = if ltb 0 cfg.call_timeout then cfg.call_timeout else default_call_timeout;
        dial_timeout = if ltb 0 cfg.dial_timeout then cfg.dial_timeout else default_dial_timeout;
        block_timeout =
            if ltb 0 cfg.block_timeout then cfg.block_timeout else default_block_timeout;
        connected = false;
        recreated = false;
        sub_loop_initialized = false;
        signals = 0;
        current_url = [];
        urls = cfg.urls;
      })

  -- the test by which the loop of `getClient` passes over a url
  unfoldable pub skips : Bytes → Client Conn → Bool
  skips url c =
      not (length c.current_url == 0)
      && ltb 1 (length c.urls)
      && ite (bytes_discrete url c.current_url) true false

  -- the loop of `getClient` over the urls
  unfoldable pub dial_urls : Network Conn → List Bytes → Client Conn → Client Conn
  dial_urls net [] c = c
  dial_urls net (url ∷ urls) c =
      let off = record c { connected = false } in
      let rest = dial_urls net urls off in
      if skips url c then rest else elim (net.dial url) [
        | none ↦ rest
        | some conn ↦ elim (net.chain_id conn) [
          | none ↦ rest
          | some id ↦
              if id == c.chain_id
              then record c { eth_client = some conn; connected = true; recreated = true }
              else rest
        ]
      ]

  -- The channel holds one signal. While it is full the send waits for the loop to take it, which is
  -- told here; none where it never does.
  unfoldable pub send_resubscribe_signal : Bool → Client Conn → Option (Client Conn)
  send_resubscribe_signal drains c =
      if c.sub_loop_initialized
      then if c.signals == 0 || drains then some (record c { signals = 1 }) else none
      else some c

  -- what `getClient` does after its loop
  unfoldable pub after_dial : Bool → Client Conn → Got Conn × Client Conn
  after_dial drains dialled =
      if dialled.connected
      then elim (send_resubscribe_signal drains dialled) [
        | none ↦ (hangs, dialled)
        | some sent ↦ (got sent.eth_client, sent)
      ]
      else (refused, dialled)

  -- the test of `getClient` on the connection that the client has, with the call of itself; what it
  -- returns is read when the mutex is unlocked
  unfoldable pub check_connection :
      Network Conn
      → Client Conn
      → Option (Got Conn × Client Conn)
      → Option Conn
      → Option (Got Conn × Client Conn)
  check_connection net c retry none = some (after_dial net.drains (dial_urls net c.urls c))
  check_connection net c retry (some conn) = elim (net.chain_id conn) [
    | none ↦ retry
    | some id ↦
        if id == c.chain_id
        then some (got (net.read_again conn), record c { connected = true; recreated = false })
        else retry
  ]

  -- `getClient`, on fuel; the network of its i-th call of itself is `nets i`
  unfoldable pub get_client : ℕ → (ℕ → Network Conn) → Client Conn → Option (Got Conn × Client Conn)
  get_client zero nets c = none
  get_client (suc fuel) nets c =
      check_connection (nets 0) c
        (get_client fuel (λ i. nets (suc i)) (record c { eth_client = none; connected = false }))
        c.eth_client
