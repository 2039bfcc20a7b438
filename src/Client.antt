-- ===== src/Client.antt =====
-- src/rpc_client.cc and src/include/rpc_client.h: one call, from the method and the request
-- message to the response message. The resolver and the transport are objects behind interfaces:
-- functions over a state. Log lines are left out.
pub mod Laws
use hxrpc.Codec.{Protobuf, encode_request, decode_response}
use hxrpc.Common.{
  ℕ, ◌+◌, ◌%◌, ◌^◌, Bool, true, false, if◌then◌else◌, Bytes, Option, none, some, Expected, value,
  unexpected,
}
use hxrpc.Dispatcher.{held_or}
use hxrpc.MessagePool.{MessagePool, PooledMessage, acquire, release_handle}
use hxrpc.Serializer.{MessageApi, serialize, deserialize}
use hxrpc.Types.{CallOptions, Endpoint, RpcError, RpcRequest, ServiceInstance, is_ok}

-- `resolver_` and `transport_`, over the state `T` of the outside.
pub record Network (T : Type 0) : Type 0 where
  pub resolve : Bytes → Bytes → T → Expected ServiceInstance RpcError × T
  pub round_trip : Endpoint → Bytes → CallOptions → T → Expected Bytes RpcError × T

pub record Client (M T : Type 0) : Type 0 where
  pub next_request_id : ℕ
  pub pool : MessagePool M
  pub network : T

module _ {M T : Type 0} (proto : Protobuf) (messages : MessageApi M) (net : Network T) where
  -- The end of the pooled message's scope, and the copy to the caller's response.
  copy_response :
      Expected M RpcError
      → PooledMessage M
      → MessagePool M
      → Client M T
      → Expected M RpcError × Client M T
  copy_response (unexpected e) handle pool c =
      (unexpected e, record c { pool = (release_handle messages handle pool).1 })
  copy_response (value m) handle pool c = (
    value m,
    record c { pool = (release_handle messages (record handle { message = some m }) pool).1 },
  )

  -- Step 6: the response into a pooled message.
  take_response : Bytes → M → Client M T → Expected M RpcError × Client M T
  unfolding copy_response
  take_response payload response c =
      let (handle, pool') = acquire messages response c.pool in
      copy_response (deserialize messages payload (held_or response handle.message)) handle pool' c

  -- Step 5: the response frame, and its status.
  read_response : Bytes → M → Client M T → Expected M RpcError × Client M T
  unfolding take_response
  read_response frame response c = elim (decode_response proto frame) [
    | unexpected e ↦ (unexpected e, c)
    | value r ↦
        if is_ok r.status
        then take_response r.payload response c
        else (unexpected (record { code = r.status; message = r.error_text }), c)
  ]

  -- Steps 3 and 4: the request id, the frame and the round trip.
  exchange :
      Bytes
      → Bytes
      → Bytes
      → M
      → CallOptions
      → Endpoint
      → Client M T
      → Expected M RpcError × Client M T
  unfolding read_response
  exchange service_name method_name payload response options endpoint c =
      let request : RpcRequest = record {
        request_id = c.next_request_id;
        service_name = service_name;
        method_name = method_name;
        metadata = options.metadata;
        payload = payload;
      } in
      let c₁ : Client M T = record c { next_request_id = (c.next_request_id + 1) % 2 ^ 64 } in
      elim (encode_request proto request) [
        | unexpected e ↦ (unexpected e, c₁)
        | value frame ↦
            let (answer, t) = net.round_trip endpoint frame options c.network in
            elim answer [
              | unexpected e ↦ (unexpected e, record c₁ { network = t })
              | value response_frame ↦
                  read_response response_frame response (record c₁ { network = t })
            ]
      ]

  -- RpcClient::InvokeAsync with options; the result is the caller's response message.
  unfoldable pub invoke :
      Bytes → Bytes → M → M → CallOptions → Client M T → Expected M RpcError × Client M T
  unfolding exchange
  invoke service_name method_name request response options c =
      let (found, t) = net.resolve service_name method_name c.network in
      elim found [
        | unexpected e ↦ (unexpected e, record c { network = t })
        | value instance_result ↦ elim (serialize messages request) [
          | unexpected e ↦ (unexpected e, record c { network = t })
          | value payload ↦
              exchange service_name method_name payload response options instance_result.endpoint
                (record c { network = t })
        ]
      ]
