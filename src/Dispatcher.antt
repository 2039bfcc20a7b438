-- ===== src/Dispatcher.antt =====
-- src/rpc_dispatcher.cc and src/include/rpc_dispatcher.h: from a request frame to a response
-- frame. The business services are generated code and user code: `ServiceApi`.
pub mod Laws
pub mod Answers
use hxrpc.Codec.{Protobuf, decode_request, encode_response}
use hxrpc.Common.{
  ℕ, Bool, true, false, [], Option, none, some, Bytes, codes, Expected, value, unexpected,
}
use hxrpc.Controller.{Controller, initial, set_request_metadata}
use hxrpc.MessagePool.{MessagePool, PooledMessage, acquire, release_handle}
use hxrpc.Registry.{Registry, RegisteredMethod, find_method}
use hxrpc.Serializer.{MessageApi, serialize, deserialize}
use hxrpc.Types.{RpcError, RpcStatusCode, RpcRequest, RpcResponse}

-- What CallMethod leaves: the two messages, and whether it ran `done` before it returned.
pub record CallResult (M : Type 0) : Type 0 where
  pub request : M
  pub response : M
  pub done_called : Bool

-- GetRequestPrototype, GetResponsePrototype and CallMethod of a service, for a method's name.
pub record ServiceApi (Svc M : Type 0) : Type 0 where
  pub request_prototype : Svc → Bytes → M
  pub response_prototype : Svc → Bytes → M
  pub call_method : Svc → Bytes → Controller → M → M → CallResult M

-- The parts that the dispatcher is put together from.
pub record Dispatcher (Svc M : Type 0) : Type 0 where
  pub proto : Protobuf
  pub messages : MessageApi M
  pub services : ServiceApi Svc M
  pub registry : Registry Svc

abbrev pub internal_error : Bytes → RpcError
internal_error m = record { code = RpcStatusCode.internal_error; message = m }

-- The pooled message of a handle that was just acquired, or a default for an empty one.
abbrev pub held_or : {M : Type 0} → M → Option M → M
held_or d none = d
held_or d (some m) = m

module _ {Svc M : Type 0} (d : Dispatcher Svc M) where
  open d use {proto, messages, services, registry}

  -- The end of a PooledMessage's scope, with the contents that it then has.
  drop_handle : PooledMessage M → M → MessagePool M → MessagePool M
  drop_handle h m pool = (release_handle messages (record h { message = some m }) pool).1

  -- After CallMethod: the check of `done`, then serialization and encoding.
  finish_call : RpcRequest → CallResult M → Expected Bytes RpcError
  finish_call request r = elim r.done_called [
    | false ↦ unexpected (internal_error (codes "asynchronous server callbacks are unsupported"))
    | true ↦ elim (serialize messages r.response) [
      | unexpected e ↦ unexpected e
      | value payload ↦ encode_response proto (record {
        request_id = request.request_id;
        status = RpcStatusCode.ok;
        error_text = [];
        payload = payload;
      })
    ]
  ]

  -- From CallMethod on. The response handle is destroyed before the request handle.
  run_method :
      RpcRequest
      → RegisteredMethod Svc
      → PooledMessage M
      → M
      → MessagePool M
      → Expected Bytes RpcError × MessagePool M
  unfolding drop_handle finish_call
  run_method request m request_handle parsed pool =
      let prototype = services.response_prototype m.service m.method_name in
      let (response_handle, pool') = acquire messages prototype pool in
      let controller = set_request_metadata request.metadata initial in
      let r =
        services.call_method m.service m.method_name controller parsed
          (held_or prototype response_handle.message) in
      (
        finish_call request r,
        drop_handle request_handle r.request (drop_handle response_handle r.response pool'),
      )

  -- On the result of Deserialize into the request message.
  after_deserialize :
      Expected M RpcError
      → RpcRequest
      → RegisteredMethod Svc
      → PooledMessage M
      → M
      → MessagePool M
      → Expected Bytes RpcError × MessagePool M
  unfolding run_method
  after_deserialize (unexpected e) request m request_handle request_message pool =
      (unexpected e, drop_handle request_handle request_message pool)
  after_deserialize (value parsed) request m request_handle request_message pool =
      run_method request m request_handle parsed pool

  -- From the registered method on.
  call_registered :
      RpcRequest → RegisteredMethod Svc → MessagePool M → Expected Bytes RpcError × MessagePool M
  unfolding after_deserialize
  call_registered request m pool =
      let prototype = services.request_prototype m.service m.method_name in
      let (request_handle, pool') = acquire messages prototype pool in
      let request_message = held_or prototype request_handle.message in
      after_deserialize (deserialize messages request.payload request_message) request m
        request_handle request_message pool'

  -- RpcDispatcher::HandleFrame
  unfoldable pub dispatch_frame : Bytes → MessagePool M → Expected Bytes RpcError × MessagePool M
  unfolding call_registered
  dispatch_frame frame pool = elim (decode_request proto frame) [
    | unexpected e ↦ (unexpected e, pool)
    | value request ↦ elim (find_method request.service_name request.method_name registry) [
      | unexpected e ↦ (unexpected e, pool)
      | value m ↦ call_registered request m pool
    ]
  ]
