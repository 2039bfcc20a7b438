-- ===== src/EndToEnd/OverTcp.antt =====
-- A call of src/rpc_client.cc over src/client_transport.cc, against src/rpc_server.cc over
-- src/connection_manager.cc: the bytes go through one TCP connection each way.
use hxrpc.Client.Laws.{Exchanged, request_of}
use hxrpc.Client.{Client, Network, invoke}
use hxrpc.Codec.Frame.{length-frame_bytes}
use hxrpc.Codec.RoundTrip.{decode_request_encoded}
use hxrpc.Codec.{IsProtobuf, encode_request, decode_request}
use hxrpc.Common.{
  ℕ, ◌^◌, ◌<◌, ◌≡◌, refl, sym, subst, ◌∙◌, ap, List, ◌++◌, Bytes, length, drop, Expected, value,
  unexpected, arith, drop-append,
}
use hxrpc.ConnectionManager.Input.{World, done, handle_readable}
use hxrpc.ConnectionManager.Output.Stream.{delivered}
use hxrpc.ConnectionManager.Output.{flush, flushed}
use hxrpc.ConnectionManager.State.{Manager}
use hxrpc.Dispatcher.Answers.{Served}
use hxrpc.Dispatcher.Laws.{KeepsTypes, answer}
use hxrpc.Dispatcher.{Dispatcher}
use hxrpc.EndToEnd.{Connected, invoke_served, invoke_refused}
use hxrpc.MessagePool.Laws.{IsMessageApi, IsValid}
use hxrpc.MessagePool.{MessagePool}
use hxrpc.Serializer.{serialize, deserialize}
use hxrpc.Server.Laws.{reply}
use hxrpc.Server.Serving.{Arrives, Serves, served, handle_readable-Serves}
use hxrpc.Server.{frame_handler}
use hxrpc.Transport.Exchange.{round_trip-frame_bytes}
use hxrpc.Transport.Io.{RecvResult, send_all}
use hxrpc.Transport.Receiving.{Carries}
use hxrpc.Transport.{Transport, RoundTripSteps, borrow_connection, round_trip, return_connection}
use hxrpc.Types.{CallOptions, RpcError, ServiceInstance}
use hxrpc.EndToEnd.Framed.{IsSmall, encode_request-IsFrame, IsFrame-front, reply-IsFrame}

-- The interfaces of the client over its TCP transport, on what the system calls give.
abbrev pub tcp :
    (Bytes → Bytes → Transport → Expected ServiceInstance RpcError × Transport)
    → RoundTripSteps
    → Network Transport
tcp resolve steps = record {
  resolve = resolve;
  round_trip = λ endpoint frame options t. round_trip endpoint frame steps t;
}

module _ {Svc M : Type 0} (d : Dispatcher Svc M) (proto_laws : IsProtobuf d.proto)
    (message_laws : IsMessageApi d.messages) (keep : KeepsTypes d)
    (resolve : Bytes → Bytes → Transport → Expected ServiceInstance RpcError × Transport)
    (steps : RoundTripSteps) (service_name method_name : Bytes) (request : M)
    (options : CallOptions) (c : Client M Transport) (m : Manager) (pool : MessagePool M)
    (fd : ℕ) where
  open d use {proto, messages}

  -- The request frame goes out whole on a connection that the client has, and arrives on the
  -- server's; the kernel takes the reply, and what it took since then arrives at the client.
  pub record Connects : Type 0 where
    pub instance_result : ServiceInstance
    pub payload : Bytes
    pub frame : Bytes
    pub response_frame : Bytes
    pub after_resolve : Transport
    pub client_fd : ℕ
    pub more : Bytes
    pub rest : List RecvResult
    pub resolved :
        resolve service_name method_name c.network ≡ (value instance_result, after_resolve)
    pub serialized : serialize messages request ≡ value payload
    pub encoded :
        encode_request proto
          (request_of proto messages (tcp resolve steps) service_name method_name payload options c)
        ≡ value frame
    pub id_fits : c.next_request_id < 2 ^ 64
    pub small : IsSmall frame
    pub borrowed :
        (borrow_connection instance_result.endpoint steps after_resolve).0 ≡ value client_fd
    pub sent : (send_all frame 0 steps.sends).result ≡ value tt
    pub arrives : Arrives fd m frame
    pub pool_valid : IsValid messages pool
    pub replied : reply d frame ≡ value response_frame
    pub response_small : IsSmall response_frame
    pub taken : (flush response_frame 0 m.sends).ending ≡ flushed
    pub carried :
        Carries steps.recvs
          (drop (length (delivered fd m.wire)) (
              delivered fd
                (served d message_laws keep fd m pool frame response_frame arrives.later).0.wire)
            ++ more)
          rest

  module _ (k : Connects) where
    decoded :
        decode_request proto k.frame
        ≡ value (
            request_of proto messages
              (tcp resolve steps)
              service_name
              method_name
              k.payload
              options
              c)
    decoded =
        let size : length k.frame < 2 ^ 32 = omega (arith, k.small) in
        decode_request_encoded proto proto_laws _ k.frame k.id_fits k.encoded size

    abbrev pub after : World (MessagePool M)
    after = served d message_laws keep fd m pool k.frame k.response_frame k.arrives.later

    handled :
        (handle_readable (frame_handler d) fd (m, pool) ≡ done after)
        × Serves (IsValid messages) fd m k.response_frame after
    handled =
        let small = k.small in
        handle_readable-Serves d message_laws keep fd m pool k.frame k.response_frame k.arrives
          k.pool_valid
          (IsFrame-front k.frame (encode_request-IsFrame proto _ k.frame k.encoded small) small)
          k.replied k.taken

    -- What the kernel took since then is the reply.
    new_bytes : drop (length (delivered fd m.wire)) (delivered fd after.0.wire) ≡ k.response_frame
    new_bytes =
        let s = handled.1 in
        ap (drop (length (delivered fd m.wire))) s.sent
        ∙ drop-append (length (delivered fd m.wire)) (delivered fd m.wire) k.response_frame refl

    returned : Transport
    returned =
        return_connection k.instance_result.endpoint k.client_fd
          (borrow_connection k.instance_result.endpoint steps k.after_resolve).1

    answered :
        round_trip k.instance_result.endpoint k.frame steps k.after_resolve
        ≡ (value k.response_frame, returned)
    unfolding returned
    answered =
        let (h, p, e) =
          reply-IsFrame d k.frame k.response_frame _ decoded k.replied k.response_small in
        let carried =
          subst (λ b. Carries steps.recvs (b ++ k.more) k.rest) (new_bytes ∙ e) k.carried in
        round_trip-frame_bytes k.instance_result.endpoint k.frame steps k.after_resolve k.client_fd
          h p k.more k.rest k.borrowed k.sent carried
          (omega (arith, k.response_small, ap length e, length-frame_bytes h p))
        ∙ ap (λ b. (value b, returned)) (sym e)

    exchanged :
        Exchanged proto messages (tcp resolve steps) service_name method_name request options c
    exchanged = record {
      instance_result = k.instance_result;
      payload = k.payload;
      frame = k.frame;
      response_frame = k.response_frame;
      after_resolve = k.after_resolve;
      after_round_trip = returned;
      resolved = k.resolved;
      serialized = k.serialized;
      encoded = k.encoded;
      answered = answered;
    }

    connected : Connected d (tcp resolve steps) proto_laws message_laws exchanged
    unfolding exchanged
    connected =
        let small = k.small in
        let response_small = k.response_small in
        record {
          id_fits = k.id_fits;
          frame_fits = omega (arith, small);
          replied = k.replied;
          response_fits = omega (arith, response_small);
        }

    abbrev pub call : M → Expected M RpcError
    call response =
        (invoke proto messages (tcp resolve steps) service_name method_name request response options
          c).0

    -- A whole call over TCP. Under the laws of the protobuf runtime, with types kept by parsing
    -- and services, valid pools, frames within the size limit and an id below 2 ^ 64, if the
    -- client's connection takes the whole request frame, which arrives on an idle connection of
    -- the server, and the bytes that the kernel took there since then arrive at the client: a call
    -- that the server's method serves returns what the caller's message type reads from the
    -- method's serialized response; HandleReadable ends with the reply on the wire behind what was
    -- there, the connection idle and the pool valid.
    pub call_served :
        (response : M) (v : IsValid messages c.pool)
        → (s : Served d
            (request_of proto messages
              (tcp resolve steps)
              service_name
              method_name
              k.payload
              options
              c)
            k.response_frame)
        → (call response ≡ deserialize messages s.payload (messages.new response))
          × (handle_readable (frame_handler d) fd (m, pool) ≡ done after)
          × Serves (IsValid messages) fd m k.response_frame after
    unfolding exchanged
    call_served response v s =
        let (ran, serves) = handled in
        (
          invoke_served d (tcp resolve steps) proto_laws message_laws service_name method_name
              request response options c v exchanged connected k.response_frame s,
          ran,
          serves,
        )

    -- Under the same conditions, if the client's connection takes the whole request frame, which
    -- arrives on an idle connection of the server, and the bytes that the kernel took there since
    -- then arrive at the client: a call whose frame the server answers with an error returns that
    -- error, with its code and its text, and the server's connection ends idle with the reply on
    -- the wire and the pool valid.
    pub call_refused :
        (response : M) (v : IsValid messages c.pool) (e : RpcError)
        → answer d k.frame ≡ unexpected e
        → (call response ≡ unexpected e)
          × (handle_readable (frame_handler d) fd (m, pool) ≡ done after)
          × Serves (IsValid messages) fd m k.response_frame after
    unfolding exchanged
    call_refused response v e bad =
        let (ran, serves) = handled in
        (
          invoke_refused d (tcp resolve steps) proto_laws message_laws service_name method_name
              request response options c v exchanged connected e bad,
          ran,
          serves,
        )
