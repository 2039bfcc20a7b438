-- ===== src/Examples/OverTcp.antt =====
-- Calls whose bytes go through a connection of the client's transport and one of the server.
use hxrpc.Client.{Client, invoke}
use hxrpc.Codec.Frame.{encode_frame, split_frame}
use hxrpc.Codec.Wire.{be32, read_be32}
use hxrpc.Codec.{encode_request, encode_response, decode_request}
use hxrpc.Common.{
  ◌≡◌, ◌≢◌, refl, sym, subst, true, arith, [], ◌∷◌, ◌++◌, Bytes, codes, Expected, value, unexpected,
  lookup, insert, bytes_eq, nat_eq, same, append-nil, drop, none,
}
use hxrpc.ConnectionManager.Input.{done, handle_readable, World}
use hxrpc.ConnectionManager.Output.Stream.{delivered}
use hxrpc.ConnectionManager.Output.Whole.{idle_with}
use hxrpc.ConnectionManager.Output.{flush, flushed}
use hxrpc.ConnectionManager.State.{Manager, find}
use hxrpc.ConnectionManager.State
use hxrpc.Controller.{set_request_metadata}
use hxrpc.Dispatcher.Laws.{answer}
use hxrpc.EndToEnd.OverTcp.{tcp, Connects, call_served, call_refused, after}
use hxrpc.Examples.Calls.{frame_for, bytes_of, request, response, say-Served, answer_shout}
use hxrpc.Examples.Outside.{transport, configured}
use hxrpc.Examples.Parts.{server-KeepsTypes}
use hxrpc.Examples.Setup.{
  Message, proto, proto-IsProtobuf, messages, messages-IsMessageApi, server, endpoint, options,
}
use hxrpc.MessagePool.Laws.{IsValid, empty_pool-IsValid}
use hxrpc.MessagePool.{MessagePool, empty_pool}
use hxrpc.Reactor.{fresh}
use hxrpc.Registry.{register_service, find_method, service_exists, missing}
use hxrpc.Serializer.{serialize, deserialize}
use hxrpc.Server.Laws.{reply}
use hxrpc.Server.Serving.{Arrives, Serves, served, served-Serves}
use hxrpc.Server.{frame_handler, request_id_of}
use hxrpc.Transport.Io.{received, written, send_all}
use hxrpc.Transport.Receiving.{Carries, nothing, piece}
use hxrpc.Transport.{Transport, RoundTripSteps, borrow_connection, configure_socket}
use hxrpc.Types.Decimal.{to_string}
use hxrpc.Types.{ServiceInstance, RpcError, endpoint_to_string, to_int32}

abbrev resolve : Bytes → Bytes → Transport → Expected ServiceInstance RpcError × Transport
resolve s m t = (value (record { id = codes "one"; endpoint = endpoint }), t)

abbrev client : Client Message Transport
client = record { next_request_id = 5; pool = empty_pool 4; network = transport }

-- The reply arrives in one piece.
abbrev steps : Bytes → RoundTripSteps
steps response_frame = record {
  set_blocking = true;
  reuse = configured;
  connect = record {
    socket_result = value 9;
    address_is_ipv4 = true;
    configure = configured;
    connect_result = none;
  };
  sends = written 1 ∷ written 100 ∷ [];
  recvs = received response_frame ∷ [];
}

-- Connection 7 of the server; the frame arrives in one piece.
abbrev manager : Bytes → Manager
manager frame = record {
  listen_fd = none;
  connections = (7, idle_with []) ∷ [];
  reactor = fresh;
  sends = State.written 3 ∷ State.written 100 ∷ [];
  recvs = State.received frame ∷ State.RecvResult.would_block ∷ [];
  accepts = [];
  closed = [];
  wire = [];
}

abbrev pool : MessagePool Message
pool = empty_pool 4

abbrev reply_for : Bytes → Bytes
reply_for method = bytes_of (reply server (frame_for method))

piece-Carries : (b : Bytes) → b ≢ [] → Carries (received b ∷ []) (b ++ []) []
piece-Carries [] ne = absurd (ne refl)
piece-Carries (x ∷ c) ne = piece x c nothing

arrives_whole : (frame : Bytes) → frame ≢ [] → Arrives 7 (manager frame) frame
unfolding lookup
arrives_whole frame ne = record {
  before = [];
  pieces = frame ∷ [];
  later = [];
  connected = refl;
  not_empty = (ne, tt);
  reads = refl;
  whole = append-nil frame;
}

-- What the kernel took arrives, if it is the reply.
carried_back :
    (frame b : Bytes)
    → b ≢ []
    → reply server frame ≡ value b
    → (flush b 0 (manager frame).sends).ending ≡ flushed
    → Carries
        (received b ∷ [])
        (drop 0 (
            delivered 7
              (served server messages-IsMessageApi server-KeepsTypes 7
                (manager frame)
                pool
                frame
                b
                []).0.wire)
          ++ [])
        []
carried_back frame b ne replied taken =
    let s =
      served-Serves server messages-IsMessageApi server-KeepsTypes 7 (manager frame) pool frame b []
        (empty_pool-IsValid messages 4) replied taken in
    subst (λ x. Carries (received b ∷ []) (x ++ []) []) (sym s.sent) (piece-Carries b ne)

abbrev ConnectsFor : Bytes → Type 0
ConnectsFor method =
    Connects server proto-IsProtobuf messages-IsMessageApi server-KeepsTypes resolve
      (steps (reply_for method)) (codes "Echo") method request options client
      (manager (frame_for method)) pool 7

say : ConnectsFor (codes "say")
unfolding codes serialize encode_request encode_frame be32 reply answer decode_request split_frame
    read_be32 find_method register_service lookup insert same deserialize set_request_metadata
    encode_response to_int32 borrow_connection configure_socket send_all endpoint_to_string
    to_string flush arrives_whole
say = record {
  instance_result = record { id = codes "one"; endpoint = endpoint };
  payload = codes "hi";
  frame = frame_for (codes "say");
  response_frame = reply_for (codes "say");
  after_resolve = transport;
  client_fd = 4;
  more = [];
  rest = [];
  resolved = refl;
  serialized = refl;
  encoded = refl;
  id_fits = omega arith;
  small = omega arith;
  borrowed = refl;
  sent = refl;
  arrives = arrives_whole (frame_for (codes "say")) (λ e. cc);
  pool_valid = empty_pool-IsValid messages 4;
  replied = refl;
  response_small = omega arith;
  taken = refl;
  carried = carried_back (frame_for (codes "say")) (reply_for (codes "say")) (λ e. cc) refl refl;
}

-- The server after the call.
abbrev done_with : (method : Bytes) → ConnectsFor method → World (MessagePool Message)
done_with method k =
    after server proto-IsProtobuf messages-IsMessageApi server-KeepsTypes resolve
      (steps (reply_for method)) (codes "Echo") method request options client
      (manager (frame_for method)) pool 7 k

call_served_example :
    ((invoke proto messages
        (tcp resolve (steps (reply_for (codes "say"))))
        (codes "Echo")
        (codes "say")
        request
        response
        options
        client).0
      ≡ value (codes "Response", codes "abhi"))
    × (handle_readable (frame_handler server) 7 (manager (frame_for (codes "say")), pool)
        ≡ done (done_with (codes "say") say))
    × Serves
        (IsValid messages)
        7
        (manager (frame_for (codes "say")))
        (reply_for (codes "say"))
        (done_with (codes "say") say)
unfolding say say-Served deserialize
call_served_example =
    call_served server proto-IsProtobuf messages-IsMessageApi server-KeepsTypes resolve
      (steps (reply_for (codes "say"))) (codes "Echo") (codes "say") request options client
      (manager (frame_for (codes "say"))) pool 7 say response (empty_pool-IsValid messages 4)
      say-Served

-- The service has no such method.
shout : ConnectsFor (codes "shout")
unfolding codes serialize encode_request encode_frame be32 reply answer decode_request split_frame
    read_be32 find_method register_service service_exists lookup insert same request_id_of
    encode_response to_int32 borrow_connection configure_socket send_all endpoint_to_string
    to_string flush arrives_whole
shout = record {
  instance_result = record { id = codes "one"; endpoint = endpoint };
  payload = codes "hi";
  frame = frame_for (codes "shout");
  response_frame = reply_for (codes "shout");
  after_resolve = transport;
  client_fd = 4;
  more = [];
  rest = [];
  resolved = refl;
  serialized = refl;
  encoded = refl;
  id_fits = omega arith;
  small = omega arith;
  borrowed = refl;
  sent = refl;
  arrives = arrives_whole (frame_for (codes "shout")) (λ e. cc);
  pool_valid = empty_pool-IsValid messages 4;
  replied = refl;
  response_small = omega arith;
  taken = refl;
  carried =
      carried_back (frame_for (codes "shout")) (reply_for (codes "shout")) (λ e. cc) refl refl;
}

call_refused_example :
    ((invoke proto messages
        (tcp resolve (steps (reply_for (codes "shout"))))
        (codes "Echo")
        (codes "shout")
        request
        response
        options
        client).0
      ≡ unexpected (missing true))
    × (handle_readable (frame_handler server) 7 (manager (frame_for (codes "shout")), pool)
        ≡ done (done_with (codes "shout") shout))
    × Serves
        (IsValid messages)
        7
        (manager (frame_for (codes "shout")))
        (reply_for (codes "shout"))
        (done_with (codes "shout") shout)
unfolding shout
call_refused_example =
    call_refused server proto-IsProtobuf messages-IsMessageApi server-KeepsTypes resolve
      (steps (reply_for (codes "shout"))) (codes "Echo") (codes "shout") request options client
      (manager (frame_for (codes "shout"))) pool 7 shout response (empty_pool-IsValid messages 4)
      (missing true) answer_shout
