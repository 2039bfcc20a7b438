-- ===== src/Server/Laws.antt =====
-- src/rpc_server.cc: what the server sends back for a frame.
use hxrpc.Codec.{decode_request, encode_response}
use hxrpc.Common.{ℕ, ◌≡◌, refl, ◌∙◌, ap, [], Bytes, Expected, value, unexpected, arith}
use hxrpc.ConnectionManager.Output.{send}
use hxrpc.ConnectionManager.State.{Manager}
use hxrpc.Dispatcher.Laws.{KeepsTypes, answer, dispatch_frame-answer}
use hxrpc.Dispatcher.{Dispatcher, dispatch_frame}
use hxrpc.MessagePool.Laws.{IsMessageApi, IsValid}
use hxrpc.MessagePool.{MessagePool}
use hxrpc.Server.{send_framework_error, respond, request_id_of, on_frame}
use hxrpc.Types.{RpcError, RpcRequest, RpcResponse}

-- Send a frame, if there is one.
abbrev pub send_if : ℕ → Expected Bytes RpcError → Manager → Manager
send_if fd (unexpected e) m = m
send_if fd (value b) m = send fd b m

module _ {Svc M : Type 0} (d : Dispatcher Svc M) where
  open d use {proto, messages}

  -- The framework's own response to a frame that was refused with `e`.
  abbrev pub error_response : Bytes → RpcError → RpcResponse
  error_response frame e = record {
    request_id = request_id_of d frame;
    status = e.code;
    error_text = e.message;
    payload = [];
  }

  abbrev pub reply_to : Bytes → Expected Bytes RpcError → Expected Bytes RpcError
  reply_to frame (value b) = value b
  reply_to frame (unexpected e) = encode_response proto (error_response frame e)

  -- The reply to a frame, with no pool and no connection.
  unfoldable pub reply : Bytes → Expected Bytes RpcError
  reply frame = reply_to frame (answer d frame)

  send_framework_error-reply :
      (fd id : ℕ) (e : RpcError) (m : Manager)
      → send_framework_error d fd id e m
        ≡ send_if fd
            (encode_response proto
              (record { request_id = id; status = e.code; error_text = e.message; payload = [] }))
            m
  unfolding send_framework_error
  send_framework_error-reply fd id e m = ground arith

  pub respond-reply :
      (fd : ℕ) (frame : Bytes) (r : Expected Bytes RpcError) (m : Manager)
      → respond d fd frame r m ≡ send_if fd (reply_to frame r) m
  unfolding respond
  respond-reply fd frame (unexpected e) m =
      send_framework_error-reply fd (request_id_of d frame) e m
  respond-reply fd frame (value b) m = refl

  -- If the message runtime obeys its laws, parsing and services keep the types of messages, and
  -- the pool is valid, OnFrame sends the reply that the specification without a pool gives to the
  -- connection that the frame came from, and nothing where the error response cannot be encoded;
  -- the pool stays valid.
  pub on_frame-reply :
      (laws : IsMessageApi messages)
      → KeepsTypes d
      → (fd : ℕ) (frame : Bytes) (m : Manager) (pool : MessagePool M) → IsValid messages pool
      → ((on_frame d fd frame (m, pool)).0 ≡ send_if fd (reply frame) m)
        × IsValid messages (on_frame d fd frame (m, pool)).1
  unfolding on_frame reply
  on_frame-reply laws keep fd frame m pool v =
      let (same, v') = dispatch_frame-answer d laws keep frame pool v in
      (
        respond-reply fd frame (dispatch_frame d frame pool).0 m
            ∙ ap (λ r. send_if fd (reply_to frame r) m) same,
        v',
      )

  pub request_id_of_decoded :
      (frame : Bytes) (request : RpcRequest)
      → decode_request proto frame ≡ value request
      → request_id_of d frame ≡ request.request_id
  unfolding request_id_of
  request_id_of_decoded frame request decoded = ground arith
