-- ===== src/Client/Laws.antt =====
-- src/rpc_client.cc: what a call returns.
use hxrpc.Codec.{Protobuf, encode_request, decode_response}
use hxrpc.Common.{◌≡◌, refl, ◌∙◌, ap, if◌then◌else◌, Bytes, Expected, value, unexpected, arith}
use hxrpc.Client.{Client, Network, copy_response, take_response, read_response, exchange, invoke}
use hxrpc.Dispatcher.{held_or}
use hxrpc.MessagePool.Laws.{IsMessageApi, IsValid, message-acquire}
use hxrpc.MessagePool.{MessagePool, PooledMessage, acquire}
use hxrpc.Serializer.{MessageApi, serialize, deserialize}
use hxrpc.Types.{CallOptions, RpcError, RpcRequest, RpcResponse, ServiceInstance, is_ok}

module _ {M T : Type 0} (proto : Protobuf) (messages : MessageApi M) (net : Network T) where
  copy_response-result :
      (r : Expected M RpcError) (h : PooledMessage M) (pool : MessagePool M) (c : Client M T)
      → (copy_response proto messages net r h pool c).0 ≡ r
  unfolding copy_response
  copy_response-result (unexpected e) h pool c = refl
  copy_response-result (value m) h pool c = refl

  -- What a response means to the caller.
  abbrev pub outcome : RpcResponse → M → Expected M RpcError
  outcome r response =
      if is_ok r.status
      then deserialize messages r.payload (messages.new response)
      else unexpected (record { code = r.status; message = r.error_text })

  module _ (laws : IsMessageApi messages) where
    take_response-result :
        (payload : Bytes) (response : M) (c : Client M T)
        → IsValid messages c.pool
        → (take_response proto messages net payload response c).0
          ≡ deserialize messages payload (messages.new response)
    unfolding take_response
    take_response-result payload response c v =
        let h = acquire messages response c.pool in
        copy_response-result (deserialize messages payload (held_or response h.0.message)) h.0 h.1 c
        ∙ ap (λ m. deserialize messages payload (held_or response m))
            (message-acquire messages laws response c.pool v)

    read_response-result :
        (frame : Bytes) (r : RpcResponse) (response : M) (c : Client M T)
        → IsValid messages c.pool
        → decode_response proto frame ≡ value r
        → (read_response proto messages net frame response c).0 ≡ outcome r response
    unfolding read_response
    read_response-result frame r response c v e =
        ground (arith, take_response-result r.payload response c v)

  -- The request of a call.
  abbrev pub request_of : Bytes → Bytes → Bytes → CallOptions → Client M T → RpcRequest
  request_of service_name method_name payload options c = record {
    request_id = c.next_request_id;
    service_name = service_name;
    method_name = method_name;
    metadata = options.metadata;
    payload = payload;
  }

  -- A call that finds an instance, sends its frame there and gets a frame back.
  pub record Exchanged (service_name method_name : Bytes) (request : M) (options : CallOptions)
      (c : Client M T) : Type 0 where
    pub instance_result : ServiceInstance
    pub payload : Bytes
    pub frame : Bytes
    pub response_frame : Bytes
    pub after_resolve : T
    pub after_round_trip : T
    pub resolved :
        net.resolve service_name method_name c.network ≡ (value instance_result, after_resolve)
    pub serialized : serialize messages request ≡ value payload
    pub encoded :
        encode_request proto (request_of service_name method_name payload options c) ≡ value frame
    pub answered :
        net.round_trip instance_result.endpoint frame options after_resolve
        ≡ (value response_frame, after_round_trip)

  -- If a call finds an instance, sends its frame there and gets back a frame that decodes, it
  -- returns what the response means, the message of an ok response or the response's status and
  -- text as the error, whatever a valid message pool holds.
  pub invoke-outcome :
      (laws : IsMessageApi messages)
      → (service_name method_name : Bytes) (request response : M) (options : CallOptions)
        (c : Client M T)
      → IsValid messages c.pool
      → (x : Exchanged service_name method_name request options c) → (r : RpcResponse)
      → decode_response proto x.response_frame ≡ value r
      → (invoke proto messages net service_name method_name request response options c).0
        ≡ outcome r response
  unfolding invoke exchange
  invoke-outcome laws service_name method_name request response options c v x r e =
      rw (x.resolved, x.serialized, x.encoded, x.resolved, x.answered, invoke, exchange)
        (read_response-result laws x.response_frame r response _ v e)
