-- ===== src/Node/Epoch.antt =====
-- `StartEpoch` and `SpreadNewEpoch` of node/bridge/node.go: how a node takes up the keys of the
-- registry, gathers its membership key, and tells the chains.
pub mod Started
use relayer.Base.{
  ℕ, ◌-◌, List, [], ◌∷◌, Bytes, bytes_discrete, Option, none, some, Bool, true, false, ◌&&◌, ltb,
  length, Outcome, ok, panic, ◌>>=◌, if◌then◌else◌,
}
use relayer.Consensus.Topics.{Protocol, join_topic, leave_topic, subscribe}
use relayer.Node.QuitHandlers.{QuitHandlers, add_quit_handler, remove_quit_handler}
use relayer.Node.Setup.{SetupCrypto, MessageBlsSetup, bls_setup}
use relayer.Node.Contracts.{node_registry_public_keys}
use relayer.Node.Requests.{epoch_topic_name}

pub record EpochKeys (c : SetupCrypto) (Key : Type 0) : Type 0 where
  pub identifier : ℕ
  pub epoch_public_key : Key
  pub membership_key : c.Signature
  pub public_keys : List Key

pub record EpochNode (c : SetupCrypto) (Key : Type 0) : Type 0 where
  pub keys : EpochKeys c Key
  pub bls_node_id : ℕ
  pub pub_sub : Protocol Bytes
  pub quit_handlers : QuitHandlers Bytes

-- What `StartEpoch` is answered: by the registry, by pubsub, and by the other nodes; `peers` are how
-- many of them it sees in the topic each time that it looks.
pub record EpochCalls (c : SetupCrypto) : Type 0 where
  pub nodes : Option (List Bytes)
  pub joined : Option ℕ
  pub subscribed : Option ℕ
  pub closes : Bool
  pub peers : List ℕ
  pub messages : List (Option (MessageBlsSetup c))
  -- whether a receive gives nil before the setup has cancelled it
  pub lost : Bool

-- The library of BLS keys.
pub record Keys (Key : Type 0) : Type 0 where
  pub unmarshal : Bytes → Option Key
  pub aggregate : List Key → Key
  pub marshal : Key → Bytes
  -- the hexadecimal text of bytes
  pub hex : Bytes → Bytes

-- how a function ends, or that it does not
pub data Ending : Type 0 where
  done failed waits : Ending

-- the loop that waits for the members of the epoch, none for one that is not over
unfoldable pub members_come : ℕ → List ℕ → Bool
members_come np [] = false
members_come np (peers ∷ rest) =
    let later = members_come np rest in if ltb peers (np - 1) then later else true

module _ {Key : Type 0} (c : SetupCrypto) where
  abbrev pub with_membership : c.Signature → QuitHandlers Bytes → EpochNode c Key → EpochNode c Key
  with_membership key quit_handlers n = record n {
    keys = record {
      identifier = n.keys.identifier;
      epoch_public_key = n.keys.epoch_public_key;
      membership_key = key;
      public_keys = n.keys.public_keys;
    };
    quit_handlers = quit_handlers;
  }

  -- after `BlsSetup`, with the key that it returned, none if it is not over
  unfoldable pub end_setup :
      Bytes → EpochNode c Key → Option c.Signature → Outcome (EpochNode c Key × Ending)
  end_setup name n none = ok (n, waits)
  end_setup name n (some key) =
      add_quit_handler bytes_discrete name n.quit_handlers
      >>= (λ added. ok (with_membership key added.0 n, done))

  -- from the start of the setup on, in the topic
  unfoldable pub set_up :
      Bytes
      → List (Option (MessageBlsSetup c))
      → Bool
      → EpochNode c Key
      → Outcome (EpochNode c Key × Ending)
  set_up name messages lost n =
      let np = length n.keys.public_keys in
      let id = n.keys.identifier in bls_setup c id np messages lost >>= end_setup name n

  -- the deferred leaving, at an end
  unfoldable pub leave_epoch : Bytes → Bool → EpochNode c Key × Ending → EpochNode c Key × Ending
  leave_epoch name closes (n, waits) = (n, waits)
  leave_epoch name closes (n, done) =
      (record n { pub_sub = (leave_topic bytes_discrete name closes n.pub_sub).0 }, done)
  leave_epoch name closes (n, failed) =
      (record n { pub_sub = (leave_topic bytes_discrete name closes n.pub_sub).0 }, failed)

  -- once the topic is joined
  unfoldable pub in_epoch_topic :
      Bytes → EpochCalls c → EpochNode c Key → Outcome (EpochNode c Key × Ending)
  in_epoch_topic name a n =
      let r = subscribe bytes_discrete name a.subscribed n.pub_sub in
      let next = record n { pub_sub = r.0 } in
      if r.1
      then if members_come (length n.keys.public_keys) a.peers
        then set_up name a.messages a.lost next
        else ok (next, waits)
      else ok (next, failed)

  unfoldable pub join_epoch :
      Bytes → EpochCalls c → EpochNode c Key → Outcome (EpochNode c Key × Ending)
  join_epoch name a n =
      let r = join_topic bytes_discrete name a.joined n.pub_sub in
      let next = record n { pub_sub = r.0 } in
      elim r.1 [
        | none ↦ ok (next, failed)
        | some topic ↦ in_epoch_topic name a next >>= λ s. ok (leave_epoch name a.closes s)
      ]

module _ {Key : Type 0} (c : SetupCrypto) (k : Keys Key) where
  -- the assignments before the join
  unfoldable pub take_keys : List Key → EpochNode c Key → EpochNode c Key
  take_keys public_keys n = record n {
    keys = record {
      identifier = n.bls_node_id;
      epoch_public_key = k.aggregate public_keys;
      membership_key = n.keys.membership_key;
      public_keys = public_keys;
    };
  }

  unfoldable pub start_with :
      EpochCalls c → EpochNode c Key → Option (List Key) → Outcome (EpochNode c Key × Ending)
  start_with a n none = ok (n, failed)
  start_with a n (some public_keys) =
      join_epoch c (epoch_topic_name k.hex (k.marshal (k.aggregate public_keys))) a
        (take_keys public_keys n)

  unfoldable pub start_epoch : EpochCalls c → EpochNode c Key → Outcome (EpochNode c Key × Ending)
  start_epoch a n = node_registry_public_keys k.unmarshal a.nodes >>= start_with a n

-- what the call of a chain in `SpreadNewEpoch` comes to, none for an error: the contract of its
-- bridge, the options of the call, the transaction, and the receipt
pub record Update (Hash : Type 0) : Type 0 where
  pub chain : ℕ
  pub bridge : Bool
  pub options : Bool
  pub sent : Option Hash

-- the transactions of the goroutines of `SpreadNewEpoch`, by chain
unfoldable pub spread_updates : {Hash : Type 0} → List (Update Hash) → List (ℕ × Hash)
spread_updates [] = []
spread_updates (u ∷ us) =
    let rest = spread_updates us in
    if u.bridge && u.options
    then elim u.sent [ none ↦ rest | some hash ↦ (u.chain, hash) ∷ rest ]
    else rest

-- `SpreadNewEpoch`, with whether it is told to quit before its time, and the deferred removal
unfoldable pub spread_new_epoch :
    {Hash : Type 0}
    → Bool
    → List (Update Hash)
    → ℕ
    → QuitHandlers Bytes
    → Outcome (QuitHandlers Bytes × List (ℕ × Hash))
spread_new_epoch quits updates ch q =
    let sent = if quits then [] else spread_updates updates in
    remove_quit_handler bytes_discrete ch q >>= λ removed. ok (removed.0, sent)
