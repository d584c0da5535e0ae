-- ===== src/Gsn/Bridge.antt =====
-- forward/bridge.go: the request that a node makes for the gas station. The packing of a call, the
-- signing of typed data and the hashes of their types are of go-ethereum and of the rest of forward,
-- and are arguments.
use relayer.Base.{refl, [], Bytes, Option, none, some, or_none, ◌≡◌, ◌∙◌, sym}
use relayer.Base.Int.{ℤ, pos}
use relayer.Gsn.{Decimal, ForwardRequest, ServerNode, execute, execute_request_handler}
use relayer.Gsn.Delivered.{IsDecimal, execute_directly, execute-eq-execute_directly}

-- What is called in `BridgeRequestV2`; none for errors.
pub record Forwarding (Typed : Type 0) : Type 0 where
  -- the call's arguments, packed
  pub packed : Option Bytes
  -- of the node's own chain: whether it has a forwarder, its address, the nonce of an address, and the
  -- text of the parameters of its type
  pub forwarder : ℤ → Option Bytes
  pub nonce : Bytes → Option ℤ
  pub generic_params : Option Bytes
  -- with the data of the request set to the packed call
  pub typed_data : ForwardRequest → Bytes → Option Typed
  pub sign : Typed → Option Bytes
  pub domain_separator_hash : Typed → Option Bytes
  pub request_type_hash : Bytes → Option Bytes

-- the request
unfoldable pub bridge_request : Bytes → Bytes → ℤ → Bytes → ForwardRequest
bridge_request signer contract nonce payload = record {
  from = signer;
  to = contract;
  value = pos 0;
  gas = pos 1000000;
  nonce = nonce;
  payload = payload;
}

module _ {Typed Hash : Type 0} (f : Forwarding Typed) where
  -- from the request on
  unfoldable pub sign_and_execute :
      (ForwardRequest → Bytes → Bytes → Bytes → Option Hash) → Bytes → ForwardRequest → Option Hash
  sign_and_execute run address req = elim (f.typed_data req address) [
    | none ↦ none
    | some typed ↦ elim (f.sign typed) [
      | none ↦ none
      | some signature ↦ elim (f.domain_separator_hash typed) [
        | none ↦ none
        | some domain ↦ elim f.generic_params [
          | none ↦ none
          | some params ↦ elim (f.request_type_hash params) [
            | none ↦ none
            | some request_type ↦ run req domain request_type signature
          ]
        ]
      ]
    ]
  ]

  -- `BridgeRequestV2`, with the `Execute` of its caller
  unfoldable pub bridge_request_v2 :
      (ForwardRequest → Bytes → Bytes → Bytes → Option Hash) → ℤ → Bytes → Bytes → Option Hash
  bridge_request_v2 run chain signer contract = elim f.packed [
    | none ↦ none
    | some payload ↦ elim (f.forwarder chain) [
      | none ↦ none
      | some address ↦ elim (f.nonce signer) [
        | none ↦ none
        | some nonce ↦ sign_and_execute run address (bridge_request signer contract nonce payload)
      ]
    ]
  ]

-- That a transaction was sent by a server's node for a request of a signer to a contract.
pub record IsForwarded {Typed Owner Forwarder Hash : Type 0} (f : Forwarding Typed)
    (node : ServerNode Owner Forwarder Hash) (chain : ℤ) (signer contract : Bytes) (hash : Hash)
    : Type 0 where
  pub req : ForwardRequest
  pub from : req.from ≡ signer
  pub to : req.to ≡ contract
  pub no_value : req.value ≡ pos 0
  pub gas : req.gas ≡ pos 1000000
  pub nonce : f.nonce signer ≡ some req.nonce
  pub payload : f.packed ≡ some req.payload
  pub address : Bytes
  pub own_forwarder : f.forwarder chain ≡ some address
  pub typed : Typed
  pub of_request : f.typed_data req address ≡ some typed
  pub signature : Bytes
  pub signed : f.sign typed ≡ some signature
  pub domain : Bytes
  pub of_domain : f.domain_separator_hash typed ≡ some domain
  pub request_type : Bytes
  pub executed : execute_directly node chain req domain request_type [] signature ≡ some hash

module _ {Typed Peer Owner Forwarder Hash : Type 0} (f : Forwarding Typed) (d : Decimal)
    (h : IsDecimal d) (node : ServerNode Owner Forwarder Hash) where
  -- A transaction that a node gets from `BridgeRequestV2`, over a server that its calls reach, is one
  -- that the server's node sent, with its own key for that chain, to its forwarder there: the request
  -- is from the signer to the contract, of no value and a million of gas, with the signer's nonce and
  -- the packed call, and the signature is over the typed data of just this request.
  pub bridge_request_v2-IsForwarded :
      (peer : Peer) (chain : ℤ) (signer contract : Bytes) (hash : Hash)
      → bridge_request_v2 f
          (λ req domain request_type signature.
            execute d
              (λ (p : Peer) request. execute_request_handler d node request)
              (some peer)
              chain
              req
              domain
              request_type
              []
              signature)
          chain
          signer
          contract
        ≡ some hash
      → IsForwarded f node chain signer contract hash
  unfolding bridge_request_v2 sign_and_execute bridge_request
  bridge_request_v2-IsForwarded peer chain signer contract hash e =
      let (payload, a, e₁) = or_none f.packed _ hash e in
      let (address, b, e₂) = or_none (f.forwarder chain) _ hash e₁ in
      let (nonce, c, e₃) = or_none (f.nonce signer) _ hash e₂ in
      let (typed, t, e₄) = or_none (f.typed_data _ address) _ hash e₃ in
      let (signature, s, e₅) = or_none (f.sign typed) _ hash e₄ in
      let (domain, m, e₆) = or_none (f.domain_separator_hash typed) _ hash e₅ in
      let (params, g, e₇) = or_none f.generic_params _ hash e₆ in
      let (request_type, r, e₈) = or_none (f.request_type_hash params) _ hash e₇ in
      record {
        req = bridge_request signer contract nonce payload;
        from = refl;
        to = refl;
        no_value = refl;
        gas = refl;
        nonce = c;
        payload = a;
        address = address;
        own_forwarder = b;
        typed = typed;
        of_request = t;
        signature = signature;
        signed = s;
        domain = domain;
        of_domain = m;
        request_type = request_type;
        executed =
            sym (execute-eq-execute_directly d h node peer chain _ domain request_type [] signature)
            ∙ e₈;
      }
