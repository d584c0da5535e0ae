-- ===== src/Tests/Epoch.antt =====
-- An epoch of two nodes, which the node with the number 1 starts. A key is a number, and the setup is
-- that of the tests of `BlsSetup`.
use relayer.Base.{
  ℕ, [], ◌∷◌, Bytes, bytes_discrete, ℕ_discrete, none, some, true, false, ok, ◌≡◌, refl,
}
use relayer.Base.Dict
use relayer.Consensus.Topics.{
  Protocol, new_pub_sub_with_topic, get_topic, join_topic, cancel_subscription, leave_topic,
  receive_from, subscribe,
}
use relayer.Consensus.Topics.Joined.{run}
use relayer.Node.QuitHandlers.{
  new_quit_handlers, is_closed, close, add_quit_handler, remove_if_current, remove_quit_handler,
}
use relayer.Node.Contracts.{unmarshal_keys, node_registry_public_keys}
use relayer.Node.Requests.{epoch_topic_name}
use relayer.Node.Epoch.{
  EpochNode, EpochCalls, Keys, done, failed, members_come, end_setup, set_up, leave_epoch,
  in_epoch_topic, join_epoch, take_keys, start_with, start_epoch, spread_updates, spread_new_epoch,
}
use relayer.Tests.Setup.{lists, two_parts}
use relayer.Consensus.Mask.{set_bit}
use relayer.Node.Setup.{
  clear_bit_pos, clear_bit, is_zero, all_ones, start_setup, parts_from, answer_setup, take_part,
  verify_part, part_from, handle_parts, handle_type, handle_setup, handle_all, returns, bls_setup,
}

program : Unit {0}
unfolding set_bit clear_bit_pos clear_bit is_zero all_ones start_setup parts_from answer_setup
    take_part verify_part part_from handle_parts handle_type handle_setup handle_all returns
    bls_setup new_pub_sub_with_topic get_topic join_topic cancel_subscription leave_topic
    receive_from subscribe run new_quit_handlers is_closed close add_quit_handler remove_if_current
    remove_quit_handler unmarshal_keys node_registry_public_keys epoch_topic_name members_come
    end_setup set_up leave_epoch in_epoch_topic join_epoch take_keys start_with start_epoch
    spread_updates spread_new_epoch Dict.get Dict.put Dict.delete bytes_discrete ℕ_discrete
program = tt

abbrev keys : Keys ℕ
keys = record {
  unmarshal = λ bytes. elim bytes [ key ∷ [] ↦ some key | _ ↦ none ];
  aggregate = λ public_keys. 99;
  marshal = λ key. key ∷ [];
  hex = λ bytes. bytes;
}

abbrev pub_sub : Protocol Bytes
pub_sub = new_pub_sub_with_topic (0 ∷ []) 0 1

abbrev node : EpochNode lists ℕ
node = record {
  keys = record { identifier = 0; epoch_public_key = 0; membership_key = []; public_keys = [] };
  bls_node_id = 1;
  pub_sub = pub_sub;
  quit_handlers = new_quit_handlers;
}

abbrev calls : EpochCalls lists
calls = record {
  nodes = some ((3 ∷ []) ∷ (4 ∷ []) ∷ []);
  joined = some 2;
  subscribed = some 3;
  closes = true;
  peers = 0 ∷ 1 ∷ [];
  messages = two_parts;
  lost = false;
}

abbrev name : Bytes
name = 69 ∷ 112 ∷ 111 ∷ 99 ∷ 104 ∷ 58 ∷ 99 ∷ []

abbrev after : EpochNode lists ℕ
after = record {
  keys = record {
    identifier = 1;
    epoch_public_key = 99;
    membership_key = 7 ∷ 6 ∷ [];
    public_keys = 3 ∷ 4 ∷ [];
  };
  bls_node_id = 1;
  pub_sub = record pub_sub { cancelled = 3 ∷ []; closed = 2 ∷ [] };
  quit_handlers = record {
    handlers = (name, 0) ∷ [];
    topics = (0, name) ∷ [];
    next = 1;
    closed = [];
  };
}

-- A receive that fails at once leaves the node with no part in its key, and no error.
no_parts :
    start_epoch lists keys (record calls { messages = []; lost = true }) node
    ≡ ok (
      record after {
        keys = record {
          identifier = 1;
          epoch_public_key = 99;
          membership_key = [];
          public_keys = 3 ∷ 4 ∷ [];
        };
      },
      done,
    )
unfolding program
no_parts = refl

-- Where the topic cannot be joined, the node has the new keys already, with the old membership key.
half_way :
    start_epoch lists keys (record calls { joined = none }) node
    ≡ ok (
      record node {
        keys = record {
          identifier = 1;
          epoch_public_key = 99;
          membership_key = [];
          public_keys = 3 ∷ 4 ∷ [];
        };
      },
      failed,
    )
unfolding program
half_way = refl

spreads :
    spread_new_epoch {Hash = ℕ} false
      (record { chain = 1; bridge = true; options = true; sent = some 8 }
        ∷ record { chain = 2; bridge = false; options = true; sent = some 9 }
        ∷ [])
      0
      after.quit_handlers
    ≡ ok (record { handlers = []; topics = []; next = 1; closed = 0 ∷ [] }, (1, 8) ∷ [])
unfolding program
spreads = refl
