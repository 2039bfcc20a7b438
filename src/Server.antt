-- ===== src/Server.antt =====
-- src/rpc_server.cc and src/include/rpc_server.h: the frame handler that the server binds to
-- the connection manager, and the start of the server. Log lines are left out.
pub mod Laws
pub mod Inputs
pub mod Serving
use hxrpc.Codec.{decode_request, encode_response}
use hxrpc.Common.{
  ℕ, Bool, true, false, List, [], ◌∷◌, Option, none, some, Bytes, Expected, value, unexpected,
}
use hxrpc.ConnectionManager.Accept.{ListenSteps, listen}
use hxrpc.ConnectionManager.Input.{World, FrameHandler}
use hxrpc.ConnectionManager.Output.{send}
use hxrpc.ConnectionManager.State.{Manager}
use hxrpc.Dispatcher.{Dispatcher, dispatch_frame}
use hxrpc.MessagePool.{MessagePool}
use hxrpc.Registry.{RegisteredMethod, list_methods}
use hxrpc.Types.{Endpoint, RpcError, RpcRequest}

module _ {Svc M : Type 0} (d : Dispatcher Svc M) where
  open d use {proto}

  -- RpcServer::SendFrameworkError
  unfoldable pub send_framework_error : ℕ → ℕ → RpcError → Manager → Manager
  send_framework_error fd request_id error m =
      elim (encode_response proto (record {
        request_id = request_id;
        status = error.code;
        error_text = error.message;
        payload = [];
      })) [ unexpected e ↦ m | value frame ↦ send fd frame m ]

  -- The id of the request, as far as the frame can be decoded, else 0.
  unfoldable pub request_id_of : Bytes → ℕ
  request_id_of frame = elim (decode_request proto frame) [
    | unexpected e ↦ 0
    | value request ↦ request.request_id
  ]

  -- The two branches of OnFrame.
  unfoldable pub respond : ℕ → Bytes → Expected Bytes RpcError → Manager → Manager
  unfolding send_framework_error
  respond fd frame (unexpected e) m = send_framework_error fd (request_id_of frame) e m
  respond fd frame (value bytes) m = send fd bytes m

  -- RpcServer::OnFrame
  unfoldable pub on_frame : ℕ → Bytes → World (MessagePool M) → World (MessagePool M)
  unfolding respond
  on_frame fd frame (m, pool) =
      let (response, pool') = dispatch_frame d frame pool in (respond fd frame response m, pool')

  -- The constructor's SetFrameHandler.
  abbrev pub frame_handler : FrameHandler (MessagePool M)
  frame_handler = some on_frame

-- How Run ends before or at the event loop: an exception with a text, or the loop is entered.
pub data Started : Type 0 where
  registration_failed : Bytes → Started
  listen_failed : Started
  entered_loop : Started

module _ {Svc R : Type 0}
    (register : Bytes → Bytes → Endpoint → R → Expected (Unit {0}) RpcError × R)
    (listen_endpoint : Endpoint) where
  -- RpcServer::RegisterEndpoints, over a registrar with the state `R`.
  unfoldable pub register_endpoints : List (RegisteredMethod Svc) → R → Option RpcError × R
  register_endpoints [] r = (none, r)
  register_endpoints (m ∷ ms) r =
      let (result, r') = register m.service_name m.method_name listen_endpoint r in
      elim result [ unexpected e ↦ (some e, r') | value u ↦ register_endpoints ms r' ]

  -- RpcServer::Run, up to the event loop.
  unfoldable pub run :
      List (RegisteredMethod Svc) → ListenSteps → R → Manager → Started × R × Manager
  unfolding register_endpoints
  run methods steps r m =
      let (failure, r') = register_endpoints methods r in
      elim failure [
        | some e ↦ (registration_failed e.message, r', m)
        | none ↦
            let (m', listening) = listen steps m in
            elim listening [ false ↦ (listen_failed, r', m') | true ↦ (entered_loop, r', m') ]
      ]
