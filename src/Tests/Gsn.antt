-- ===== src/Tests/Gsn.antt =====
-- The gas station network at small inputs; a peer, an owner, a forwarder and a hash are numbers, and
-- the text of a number is its sign and the number.
use relayer.Base.{
  ◌++◌, ℕ, zero, suc, List, [], ◌∷◌, Bytes, Option, none, some, true, false, ◌≡◌, refl,
}
use relayer.Base.Int.{ℤ, pos, negsuc}
use relayer.Gsn.{
  Decimal, ForwardRequest, ExecuteRequest, ExecuteResult, ServerNode, new_rpc_forward_request,
  dump_to_forward_request, execute_on, execute_request_handler, execute,
}
use relayer.Gsn.Bridge.{
  Forwarding, bridge_request, sign_and_execute, bridge_request_v2, IsForwarded,
  bridge_request_v2-IsForwarded,
}
use relayer.Gsn.Delivered.{IsDecimal, execute_directly}
use relayer.Gsn.Discovery.{
  Tick, take_providers, discovery_tick, discovery, wait_for_discovery_gsn, connected_peers, Ticks,
  discovery-Ticks,
}

program : Unit {0}
unfolding new_rpc_forward_request dump_to_forward_request execute_on execute_request_handler execute
    bridge_request sign_and_execute bridge_request_v2 execute_directly take_providers discovery_tick
    discovery wait_for_discovery_gsn connected_peers
program = tt

abbrev signed : Decimal
signed = record {
  print = λ z. elim z [ pos n ↦ 0 ∷ n ∷ [] | negsuc n ↦ 1 ∷ n ∷ [] ];
  parse = λ bs. elim bs [
    | zero ∷ n ∷ [] ↦ some (pos n)
    | suc zero ∷ n ∷ [] ↦ some (negsuc n)
    | _ ↦ none
  ];
}

signed-IsDecimal : IsDecimal signed
signed-IsDecimal = record { reads = by_sign }
  where
    by_sign : (z : ℤ) → signed.parse (signed.print z) ≡ some z
    by_sign (pos n) = refl
    by_sign (negsuc n) = refl

abbrev server : ServerNode ℕ ℕ ℕ
server = record {
  get_owner = λ chain. elim chain [ pos n ↦ some n | negsuc n ↦ none ];
  get_forwarder = λ chain. some 4;
  execute = λ forwarder owner req domain request_type suffix signature. some owner;
}

abbrev request : ForwardRequest
request = record {
  from = 1 ∷ [];
  to = 2 ∷ [];
  value = pos 0;
  gas = pos 6;
  nonce = pos 7;
  payload = 8 ∷ [];
}

abbrev call : ℕ → ExecuteRequest → Option (ExecuteResult ℕ)
call peer message = execute_request_handler signed server message

executes : execute signed call (some 3) (pos 5) request [] [] [] [] ≡ some 5
unfolding program
executes = refl

undiscovered : execute signed call none (pos 5) request [] [] [] [] ≡ none
unfolding program
undiscovered = refl

abbrev forwarding : Forwarding Bytes
forwarding = record {
  packed = some (8 ∷ []);
  forwarder = λ chain. some (4 ∷ []);
  nonce = λ signer. some (pos 7);
  generic_params = some (9 ∷ []);
  typed_data = λ req address. some (8 ∷ []);
  sign = λ typed. some (3 ∷ []);
  domain_separator_hash = λ typed. some (1 ∷ []);
  request_type_hash = λ params. some (2 ∷ []);
}

abbrev over_server : ForwardRequest → Bytes → Bytes → Bytes → Option ℕ
over_server req domain request_type signature =
    execute signed (λ (p : ℕ) message. execute_request_handler signed server message) (some 3)
      (pos 5) req domain request_type [] signature

forwards : bridge_request_v2 forwarding over_server (pos 5) (1 ∷ []) (2 ∷ []) ≡ some 5
unfolding program
forwards = refl

bridge_request_v2-IsForwarded_example : IsForwarded forwarding server (pos 5) (1 ∷ []) (2 ∷ []) 5
bridge_request_v2-IsForwarded_example =
    bridge_request_v2-IsForwarded forwarding signed signed-IsDecimal server 3 (pos 5) (1 ∷ [])
      (2 ∷ []) 5 forwards

abbrev ticks : List (Tick ℕ)
ticks =
    record { still_connected = false; providers = record { peer = 1; connected = false } ∷ [] }
    ∷ record { still_connected = false; providers = record { peer = 2; connected = true } ∷ [] }
    ∷ record { still_connected = true; providers = record { peer = 3; connected = true } ∷ [] }
    ∷ []

keeps_peer : discovery ticks none ≡ some 2
unfolding program
keeps_peer = refl

in_time : wait_for_discovery_gsn {Peer = ℕ} ((none, false) ∷ (some 2, true) ∷ []) ≡ some true
unfolding program
in_time = refl

abbrev next_tick : Tick ℕ
next_tick = record {
  still_connected = false;
  providers =
      record { peer = 4; connected = true }
      ∷ record { peer = 5; connected = true }
      ∷ record { peer = 6; connected = false }
      ∷ [];
}

changes_peer : discovery (ticks ++ (next_tick ∷ [])) none ≡ some 5
unfolding program
changes_peer = refl

discovery-Ticks_example :
    Ticks next_tick (discovery ticks none) (discovery (ticks ++ (next_tick ∷ [])) none)
discovery-Ticks_example = discovery-Ticks ticks next_tick none
