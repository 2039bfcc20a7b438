-- ===== src/Codec/Reject.antt =====
-- src/codec.cc: the frames that decoding refuses.
use hxrpc.Codec.Frame.{split_frame, split_frame_inv}
use hxrpc.Codec.Wire.{read_be32-append}
use hxrpc.Codec.{Protobuf, decode_request, decode_response}
use hxrpc.Common.{
  ◌≡◌, refl, ◌++◌, [], ◌∷◌, length-append, >>=-eq-value, Bytes, length, Expected, value, unexpected,
  arith,
}
use hxrpc.Types.{RpcRequest, RpcError, RpcStatusCode}

-- A refusal of `m` has the status code kInvalidPacket.
abbrev pub RefusesAsInvalid : {A : Type 0} → Expected A RpcError → Type 0
RefusesAsInvalid m = (e : RpcError) → m ≡ unexpected e → e.code ≡ RpcStatusCode.invalid_packet

pub split_frame-RefusesAsInvalid : (f : Bytes) → RefusesAsInvalid (split_frame f)
unfolding split_frame
split_frame-RefusesAsInvalid f e h = ground arith

-- Whatever DecodeRequest refuses, it refuses as an invalid packet.
pub decode_request_refused :
    (p : Protobuf) (f : Bytes) (e : RpcError)
    → decode_request p f ≡ unexpected e
    → e.code ≡ RpcStatusCode.invalid_packet
unfolding decode_request
decode_request_refused p f e h = ground (arith, split_frame-RefusesAsInvalid f e)

-- Whatever DecodeResponse refuses, it refuses as an invalid packet.
pub decode_response_refused :
    (p : Protobuf) (f : Bytes) (e : RpcError)
    → decode_response p f ≡ unexpected e
    → e.code ≡ RpcStatusCode.invalid_packet
unfolding decode_response
decode_response_refused p f e h = ground (arith, split_frame-RefusesAsInvalid f e)

nil_of_length : (rest : Bytes) → length rest ≡ 0 → rest ≡ []
nil_of_length [] h = refl
nil_of_length (x ∷ rest) h = absurd (omega arith)

-- No accepted frame is a proper prefix of an accepted frame.
pub split_frame_prefix :
    (f rest : Bytes) {x y : Bytes × Bytes}
    → split_frame f ≡ value x
    → split_frame (f ++ rest) ≡ value y
    → rest ≡ []
split_frame_prefix f rest a b =
    let s = split_frame_inv f a in
    let t = split_frame_inv (f ++ rest) b in
    nil_of_length rest (
      omega (arith, s.declared, t.declared, s.large, length-append f rest, read_be32-append f rest))

decode_request-splits :
    (p : Protobuf) (f : Bytes) {r : RpcRequest}
    → decode_request p f ≡ value r
    → (x : Bytes × Bytes) × (split_frame f ≡ value x)
unfolding decode_request
decode_request-splits p f e = let (x, s, _) = >>=-eq-value (split_frame f) _ e in (x, s)

-- No frame that decodes to a request is a proper prefix of another that does.
pub decode_request_prefix :
    (p : Protobuf) (f rest : Bytes) {r q : RpcRequest}
    → decode_request p f ≡ value r
    → decode_request p (f ++ rest) ≡ value q
    → rest ≡ []
decode_request_prefix p f rest a b =
    split_frame_prefix f rest (decode_request-splits p f a).1
      (decode_request-splits p (f ++ rest) b).1
