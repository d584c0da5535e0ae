-- ===== src/Node/Epoch/Started.antt =====
-- What `StartEpoch` of node/bridge/node.go leaves.
use relayer.Base.{
  ℕ, List, Bytes, bytes_discrete, Option, none, some, Bool, true, length, ite, ok, ◌≡◌,
}
use relayer.Consensus.Topics.{get_topic, join_topic, leave_topic, subscribe, receive_from}
use relayer.Node.QuitHandlers.{QuitHandlers, add_quit_handler, remove_topic_handler}
use relayer.Node.Setup.{SetupCrypto, MessageBlsSetup, bls_setup}
use relayer.Node.Contracts.{node_registry_public_keys}
use relayer.Node.Requests.{epoch_topic_name}
use relayer.Node.Epoch.{EpochNode, EpochCalls, Keys, with_membership}

module _ {Key : Type 0} (c : SetupCrypto) where
  -- that a setup returned a key, and a channel was registered
  record IsSetUp (name : Bytes) (messages : List (Option (MessageBlsSetup c))) (lost : Bool)
      (n m : EpochNode c Key) : Type 0 where
    pub key : c.Signature
    pub ran :
        bls_setup c n.keys.identifier (length n.keys.public_keys) messages lost ≡ ok (some key)
    pub added : QuitHandlers Bytes × ℕ
    pub adds : add_quit_handler bytes_discrete name n.quit_handlers ≡ ok added
    pub result : m ≡ with_membership c key added.0 n

  -- what the handling of an epoch that is joined does to a node
  record IsJoinedEpoch (name : Bytes) (a : EpochCalls c) (n after : EpochNode c Key) : Type 0 where
    pub before_leaving : EpochNode c Key
    pub is_set_up :
        IsSetUp name a.messages a.lost
          (record n {
            pub_sub =
                (subscribe bytes_discrete name a.subscribed
                  (join_topic bytes_discrete name a.joined n.pub_sub).0).0;
          })
          before_leaving
    pub left : after ≡ record before_leaving {
      pub_sub = (leave_topic bytes_discrete name a.closes before_leaving.pub_sub).0;
    }

module _ {Key : Type 0} (c : SetupCrypto) (k : Keys Key) where
  -- the topic of the epoch that a node is in
  abbrev pub epoch_topic : EpochNode c Key → Bytes
  epoch_topic n = epoch_topic_name k.hex (k.marshal n.keys.epoch_public_key)

  -- what a node is like after `StartEpoch`, from the node before
  pub record IsStarted (a : EpochCalls c) (n after : EpochNode c Key) : Type 0 where
    pub registry_keys :
        node_registry_public_keys k.unmarshal a.nodes ≡ ok (some after.keys.public_keys)
    pub aggregated : after.keys.epoch_public_key ≡ k.aggregate after.keys.public_keys
    pub ran :
        bls_setup c n.bls_node_id (length after.keys.public_keys) a.messages a.lost
        ≡ ok (some after.keys.membership_key)
    pub topics :
        (other : Bytes)
        → (get_topic bytes_discrete other after.pub_sub
            ≡ ite
                (bytes_discrete (epoch_topic after) other)
                none
                (get_topic bytes_discrete other n.pub_sub))
          × (receive_from bytes_discrete other after.pub_sub
              ≡ ite
                  (bytes_discrete (epoch_topic after) other)
                  none
                  (receive_from bytes_discrete other n.pub_sub))
    pub without_handler : QuitHandlers Bytes
    pub stoppable :
        remove_topic_handler bytes_discrete (epoch_topic after) after.quit_handlers
        ≡ ok (without_handler, true)
