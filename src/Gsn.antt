-- ===== src/Gsn.antt =====
-- libp2p/rpc/gsn: the gas station network, by which a node lets another one send its request and pay
-- for it. What chains, contracts and the network answer is an argument, and so is the decimal text of
-- a number.
pub mod Bridge
pub mod Delivered
pub mod Discovery
use relayer.Base.{List, Bytes, Option, none, some}
use relayer.Base.Int.{ℤ}

-- `String` and `SetString` of a `big.Int`, in base ten
pub record Decimal : Type 0 where
  pub print : ℤ → Bytes
  pub parse : Bytes → Option ℤ

-- `wrappers.IForwarderForwardRequest`
pub record ForwardRequest : Type 0 where
  pub from : Bytes
  pub to : Bytes
  pub value : ℤ
  pub gas : ℤ
  pub nonce : ℤ
  pub payload : Bytes

pub record RpcForwardRequest : Type 0 where
  pub from : Bytes
  pub to : Bytes
  pub value : Bytes
  pub gas : Bytes
  pub nonce : Bytes
  pub payload : Bytes

pub record ExecuteRequest : Type 0 where
  pub chain_id : Bytes
  pub forward_request : RpcForwardRequest
  pub domain_separator : Bytes
  pub request_type_hash : Bytes
  pub suffix : Bytes
  pub signature : Bytes

pub record ExecuteResult (Hash : Type 0) : Type 0 where
  pub chain_id : Bytes
  pub tx_hash : Hash

-- what a server's node has for a chain, and the call of a forwarder; none for errors
pub record ServerNode (Owner Forwarder Hash : Type 0) : Type 0 where
  pub get_owner : ℤ → Option Owner
  pub get_forwarder : ℤ → Option Forwarder
  pub execute : Forwarder → Owner → ForwardRequest → Bytes → Bytes → Bytes → Bytes → Option Hash

module _ (d : Decimal) where
  unfoldable pub new_rpc_forward_request : ForwardRequest → RpcForwardRequest
  new_rpc_forward_request req = record {
    from = req.from;
    to = req.to;
    value = d.print req.value;
    gas = d.print req.gas;
    nonce = d.print req.nonce;
    payload = req.payload;
  }

  unfoldable pub dump_to_forward_request : RpcForwardRequest → Option ForwardRequest
  dump_to_forward_request r = elim (d.parse r.value) [
    | none ↦ none
    | some value ↦ elim (d.parse r.gas) [
      | none ↦ none
      | some gas ↦ elim (d.parse r.nonce) [
        | none ↦ none
        | some nonce ↦ some (record {
          from = r.from;
          to = r.to;
          value = value;
          gas = gas;
          nonce = nonce;
          payload = r.payload;
        })
      ]
    ]
  ]

module _ {Owner Forwarder Hash : Type 0} (d : Decimal)
    (node : ServerNode Owner Forwarder Hash) where
  -- once the chain is known
  unfoldable pub execute_on : ℤ → ExecuteRequest → Option (ExecuteResult Hash)
  execute_on chain request = elim (node.get_owner chain) [
    | none ↦ none
    | some owner ↦ elim (node.get_forwarder chain) [
      | none ↦ none
      | some forwarder ↦ elim (dump_to_forward_request d request.forward_request) [
        | none ↦ none
        | some forward_request ↦
            elim (node.execute forwarder owner forward_request request.domain_separator
              request.request_type_hash request.suffix request.signature) [
                | none ↦ none
                | some tx_hash ↦ some (record { chain_id = request.chain_id; tx_hash = tx_hash })
              ]
      ]
    ]
  ]

  -- under the server's mutex; none for an error, which `RpcApiGsn.Execute` passes on
  unfoldable pub execute_request_handler : ExecuteRequest → Option (ExecuteResult Hash)
  execute_request_handler request = elim (d.parse request.chain_id) [
    | none ↦ none
    | some chain ↦ execute_on chain request
  ]

-- `Execute` of a client, with the peer that it has discovered, none for the empty identity,
-- and the call of a peer's service, none for an error
unfoldable pub execute :
    {Peer Hash : Type 0}
    → Decimal
    → (Peer → ExecuteRequest → Option (ExecuteResult Hash))
    → Option Peer
    → ℤ
    → ForwardRequest
    → Bytes
    → Bytes
    → Bytes
    → Bytes
    → Option Hash
execute d call gsn_peer chain req domain_separator request_type_hash suffix signature =
    elim gsn_peer [
      | none ↦ none
      | some peer ↦
          elim (call peer (record {
            chain_id = d.print chain;
            forward_request = new_rpc_forward_request d req;
            domain_separator = domain_separator;
            request_type_hash = request_type_hash;
            suffix = suffix;
            signature = signature;
          })) [ none ↦ none | some result ↦ some result.tx_hash ]
    ]
