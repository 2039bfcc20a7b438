-- ===== src/EndToEnd/Framed.antt =====
-- src/codec.cc between src/rpc_client.cc and src/rpc_server.cc: requests and replies within the size
-- limit are frames that the connections cut off whole.
use hxrpc.Codec.Frame.{encode_frame, frame_bytes, length-frame_bytes, encode_frame-fits}
use hxrpc.Codec.RoundTrip.{length-encode_frame}
use hxrpc.Codec.{
  Protobuf, request_header, response_header, encode_request, encode_response, decode_request,
}
use hxrpc.Common.{
  ◌+◌, ◌≤◌, ◌≡◌, sym, subst, ◌∙◌, ap, [], ◌++◌, Bytes, length, value, arith, append-nil,
  >>=-eq-value, or_fail, value_injective, Expected-cases, inl, inr,
}
use hxrpc.ConnectionManager.Input.Framing.{front-frame_bytes}
use hxrpc.ConnectionManager.Input.{front, frame, max_frame_body_size}
use hxrpc.Dispatcher.Answers.{ok_response, answer_value}
use hxrpc.Dispatcher.Laws.{answer}
use hxrpc.Dispatcher.{Dispatcher}
use hxrpc.Server.Laws.{reply, reply_to, error_response}
use hxrpc.Types.{RpcRequest, RpcResponse}

-- What the limit of a connection lets through.
abbrev pub IsSmall : Bytes → Type 0
IsSmall f = length f ≤ 4 + max_frame_body_size

encode_frame_small : (h p f : Bytes) → encode_frame h p ≡ value f → IsSmall f → f ≡ frame_bytes h p
encode_frame_small h p f e small =
    value_injective
      (sym e ∙ encode_frame-fits h p (omega (arith, small, length-encode_frame h p f e)))

-- A frame that the codec made.
abbrev pub IsFrame : Bytes → Type 0
IsFrame f = (h : Bytes) × (b : Bytes) × (f ≡ frame_bytes h b)

module _ (p : Protobuf) where
  pub encode_request-IsFrame :
      (r : RpcRequest) (f : Bytes) → encode_request p r ≡ value f → IsSmall f → IsFrame f
  unfolding encode_request
  encode_request-IsFrame r f e small =
      let (h, _, made) = >>=-eq-value (or_fail (p.serialize_header (request_header r)) _) _ e in
      (h, r.metadata ++ r.payload, encode_frame_small h (r.metadata ++ r.payload) f made small)

  encode_response-IsFrame :
      (r : RpcResponse) (f : Bytes) → encode_response p r ≡ value f → IsSmall f → IsFrame f
  unfolding encode_response
  encode_response-IsFrame r f e small =
      let (h, _, made) =
        >>=-eq-value (or_fail (p.serialize_response_header (response_header r)) _) _ e in
      (h, r.payload, encode_frame_small h r.payload f made small)

pub IsFrame-front : (f : Bytes) → IsFrame f → IsSmall f → front f ≡ frame f []
IsFrame-front f (h, b, e) small =
    let whole =
      front-frame_bytes h b [] (omega (arith, small, ap length e, length-frame_bytes h b)) in
    subst (λ x. front x ≡ frame x []) (sym e)
      (ap front (sym (append-nil (frame_bytes h b))) ∙ whole)

-- The reply to a request that decodes is a frame of the codec.
pub reply-IsFrame :
    {Svc M : Type 0} (d : Dispatcher Svc M) (f b : Bytes) (request : RpcRequest)
    → decode_request d.proto f ≡ value request
    → reply d f ≡ value b
    → IsSmall b
    → IsFrame b
unfolding reply
reply-IsFrame d f b request decoded e small = elim (Expected-cases (answer d f)) [
  | inl (a, good) ↦
      let same : a ≡ b = value_injective (sym (ap (reply_to d f) good) ∙ e) in
      let (payload, encoded) = answer_value d f request a decoded good in
      encode_response-IsFrame d.proto (ok_response d request payload) b (encoded ∙ ap value same)
        small
  | inr (x, bad) ↦
      encode_response-IsFrame d.proto (error_response d f x) b (sym (ap (reply_to d f) bad) ∙ e)
        small
]
