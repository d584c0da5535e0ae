-- ===== src/Gsn/Delivered.antt =====
-- That a request comes through the gas station network of libp2p/rpc/gsn as it was made.
use relayer.Base.{Bytes, Option, none, some, ◌≡◌, refl, arith}
use relayer.Base.Int.{ℤ}
use relayer.Gsn.{
  Decimal, ForwardRequest, ServerNode, new_rpc_forward_request, dump_to_forward_request, execute_on,
  execute_request_handler, execute,
}

-- `SetString` reads what `String` writes.
pub record IsDecimal (d : Decimal) : Type 0 where
  pub reads : (z : ℤ) → d.parse (d.print z) ≡ some z

module _ {Owner Forwarder Hash : Type 0} (node : ServerNode Owner Forwarder Hash) where
  -- the call of a chain's forwarder by its owner
  unfoldable pub execute_directly : ℤ → ForwardRequest → Bytes → Bytes → Bytes → Bytes → Option Hash
  execute_directly chain req domain_separator request_type_hash suffix signature =
      elim (node.get_owner chain) [
        | none ↦ none
        | some owner ↦ elim (node.get_forwarder chain) [
          | none ↦ none
          | some forwarder ↦
              node.execute forwarder owner req domain_separator request_type_hash suffix signature
        ]
      ]

module _ (d : Decimal) (h : IsDecimal d) where
  -- A request that was put into the form of a message is taken out of it unchanged.
  pub dump-new_rpc :
      (req : ForwardRequest) → dump_to_forward_request d (new_rpc_forward_request d req) ≡ some req
  unfolding dump_to_forward_request new_rpc_forward_request
  dump-new_rpc req =
      rw (dump_to_forward_request, h.reads req.value, h.reads req.gas, h.reads req.nonce) refl

  module _ {Peer Owner Forwarder Hash : Type 0} (node : ServerNode Owner Forwarder Hash) where
    -- A client that has discovered a peer, whose calls reach a server, comes to what the server's
    -- node comes to when it calls the chain's forwarder with the same request itself: the decimal
    -- texts of the message lose nothing, and every error of the server is one for the client.
    pub execute-eq-execute_directly :
        (peer : Peer) (chain : ℤ) (req : ForwardRequest)
        (domain_separator request_type_hash suffix signature : Bytes)
        → execute d
            (λ (p : Peer) request. execute_request_handler d node request)
            (some peer)
            chain
            req
            domain_separator
            request_type_hash
            suffix
            signature
          ≡ execute_directly node chain req domain_separator request_type_hash suffix signature
    unfolding execute execute_request_handler execute_on execute_directly
    execute-eq-execute_directly peer chain req domain_separator request_type_hash suffix signature =
        ground (arith, h.reads chain, dump-new_rpc req)
