-- ===== src/EndToEnd.antt =====
-- A call of src/rpc_client.cc against the server of src/rpc_server.cc: the client's frame goes
-- to the server's frame handler, and what that sends comes back to the client.
pub mod Framed
pub mod OverTcp
use hxrpc.Client.Laws.{Exchanged, request_of, invoke-outcome}
use hxrpc.Client.{Client, Network, invoke}
use hxrpc.Codec.RoundTrip.{decode_request_encoded, decode_response_encoded}
use hxrpc.Codec.{IsProtobuf, decode_request}
use hxrpc.Common.{
  ◌^◌, ◌<◌, ◌≡◌, refl, sym, ◌∙◌, ap, false, Bytes, length, value, unexpected, arith,
  value_injective,
}
use hxrpc.Dispatcher.Answers.{answer-ErrorsNamed, ok_response, Served, answer_served}
use hxrpc.Dispatcher.Laws.{answer}
use hxrpc.Dispatcher.{Dispatcher}
use hxrpc.MessagePool.Laws.{IsMessageApi, IsValid}
use hxrpc.Serializer.{deserialize}
use hxrpc.Server.Laws.{reply, reply_to, error_response, request_id_of_decoded}
use hxrpc.Types.{CallOptions, RpcError, RpcStatusCode, is_ok, to_int32}

-- The error codes are not kOk.
is_ok_error : (s : RpcStatusCode) → 0 < to_int32 s → is_ok s ≡ false
unfolding is_ok to_int32
is_ok_error RpcStatusCode.ok h = absurd (omega arith)
is_ok_error _ h = refl

module _ {Svc M T : Type 0} (d : Dispatcher Svc M) (net : Network T)
    (proto_laws : IsProtobuf d.proto) (message_laws : IsMessageApi d.messages) where
  open d use {proto, messages, services, registry}

  -- The frame that comes back is the server's reply to the frame sent, and no size overflows.
  pub record Connected {service_name method_name : Bytes} {request : M} {options : CallOptions}
      {c : Client M T} (x : Exchanged proto messages net service_name method_name request options c)
      : Type 0 where
    pub id_fits : c.next_request_id < 2 ^ 64
    pub frame_fits : length x.frame < 2 ^ 32
    pub replied : reply d x.frame ≡ value x.response_frame
    pub response_fits : length x.response_frame < 2 ^ 32

  module _ (service_name method_name : Bytes) (request response : M) (options : CallOptions)
      (c : Client M T) (v : IsValid messages c.pool)
      (x : Exchanged proto messages net service_name method_name request options c)
      (k : Connected x) where
    decoded :
        decode_request proto x.frame
        ≡ value (request_of proto messages net service_name method_name x.payload options c)
    decoded = decode_request_encoded proto proto_laws _ x.frame k.id_fits x.encoded k.frame_fits

    -- Under the laws of the protobuf runtime, with a valid client pool, if the reply comes back
    -- and ids and sizes fit, and if the server answers the frame of a call with an error, the
    -- caller gets that error, with its code and its text.
    pub invoke_refused :
        (e : RpcError)
        → answer d x.frame ≡ unexpected e
        → (invoke proto messages net service_name method_name request response options c).0
          ≡ unexpected e
    unfolding reply
    invoke_refused e bad =
        let named = answer-ErrorsNamed d x.frame e bad in
        let own = request_id_of_decoded d x.frame _ decoded in
        invoke-outcome proto messages net message_laws service_name method_name request response
          options c v x (error_response d x.frame e)
          (decode_response_encoded proto proto_laws (error_response d x.frame e) x.response_frame
            (rw own k.id_fits) (omega (arith, named))
            (sym (ap (reply_to d x.frame) bad) ∙ k.replied) k.response_fits)
        ∙ rw (is_ok_error e.code named.0)

    -- Under the laws of the protobuf runtime and with a valid client pool, a call that the
    -- server's method serves returns what the caller's message type reads from the payload that
    -- the method's response was serialized to, if the reply to the frame sent comes back and the
    -- ids and frame sizes fit their fields.
    pub invoke_served :
        (b : Bytes)
        → (s : Served d
            (request_of proto messages net service_name method_name x.payload options c)
            b)
        → (invoke proto messages net service_name method_name request response options c).0
          ≡ deserialize messages s.payload (messages.new response)
    unfolding reply is_ok
    invoke_served b s =
        let rq = request_of proto messages net service_name method_name x.payload options c in
        let good = answer_served d x.frame rq b decoded s in
        let same : b ≡ x.response_frame =
          value_injective (sym (ap (reply_to d x.frame) good) ∙ k.replied) in
        invoke-outcome proto messages net message_laws service_name method_name request response
          options c v x (ok_response d rq s.payload)
          (decode_response_encoded proto proto_laws (ok_response d rq s.payload) x.response_frame
            k.id_fits (unfold to_int32 in omega arith) (s.encoded ∙ ap value same) k.response_fits)
