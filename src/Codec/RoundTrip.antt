-- ===== src/Codec/RoundTrip.antt =====
-- src/codec.cc: an encoded request or response, decoded again.
use hxrpc.Codec.Wire.{be32, length-be32}
use hxrpc.Codec.Frame.{encode_frame, frame_bytes, encode_frame-fits, split_frame-frame_bytes}
use hxrpc.Codec.{
  Protobuf, IsProtobuf, request_header, response_header, encode_request, encode_response,
  decode_request, decode_response,
}
use hxrpc.Common.{
  ℕ, ◌+◌, ◌%◌, ◌^◌, ◌<◌, ◌≡◌, refl, sym, ap, or_fail, or_fail-eq-value, >>=-eq-value,
  value_injective, ◌∙◌, ◌++◌, some, Bytes, length, value, arith, ==_refl, length-append,
  take-append, drop-append,
}
use hxrpc.Types.{RpcRequest, RpcResponse, to_int32}
use hxrpc.Types.Laws.{of_int32-to_int32}

-- A request whose sizes fit the 32-bit fields of its header and frame, `b` being its header.
pub record FitsFrame (r : RpcRequest) (b : Bytes) : Type 0 where
  pub request_id_fits : r.request_id < 2 ^ 64
  pub frame_fits : 4 + length b + (length r.metadata + length r.payload) < 2 ^ 32

-- The same of a response.
pub record FitsResponseFrame (r : RpcResponse) (b : Bytes) : Type 0 where
  pub request_id_fits : r.request_id < 2 ^ 64
  pub status_fits : to_int32 r.status < 2 ^ 32
  pub frame_fits : 4 + length b + length r.payload < 2 ^ 32

wraps_not : (n : ℕ) → n < 2 ^ 32 → n % 2 ^ 32 ≡ n
wraps_not n h = omega arith

module _ (p : Protobuf) where
  encode_request-frame :
      (r : RpcRequest) (b : Bytes)
      → p.serialize_header (request_header r) ≡ some b
      → FitsFrame r b
      → encode_request p r ≡ value (frame_bytes b (r.metadata ++ r.payload))
  unfolding encode_request
  encode_request-frame r b e fits = rw e (
      encode_frame-fits b (r.metadata ++ r.payload)
        (omega (arith, fits.frame_fits, length-append r.metadata r.payload)))

  encode_response-frame :
      (r : RpcResponse) (b : Bytes)
      → p.serialize_response_header (response_header r) ≡ some b
      → FitsResponseFrame r b
      → encode_response p r ≡ value (frame_bytes b r.payload)
  unfolding encode_response
  encode_response-frame r b e fits = rw e (encode_frame-fits b r.payload fits.frame_fits)

module _ (p : Protobuf) (laws : IsProtobuf p) where
  decode_request-frame :
      (r : RpcRequest) (b : Bytes)
      → p.serialize_header (request_header r) ≡ some b
      → FitsFrame r b
      → decode_request p (frame_bytes b (r.metadata ++ r.payload)) ≡ value r
  unfolding decode_request
  decode_request-frame r b e fits = rw (
    split_frame-frame_bytes b (r.metadata ++ r.payload)
        (omega (arith, fits.frame_fits, length-append r.metadata r.payload)),
    laws.parse-serialize (request_header r) b
        (record {
          request_id_fits = fits.request_id_fits;
          args_size_fits = omega arith;
          meta_size_fits = omega arith;
        })
        e,
    wraps_not (length r.metadata) (omega (arith, fits.frame_fits)),
    wraps_not (length r.payload) (omega (arith, fits.frame_fits)),
    length-append r.metadata r.payload,
    ==_refl (length r.metadata + length r.payload),
    take-append (length r.metadata) r.metadata r.payload refl,
    drop-append (length r.metadata) r.metadata r.payload refl,
  )

  decode_response-frame :
      (r : RpcResponse) (b : Bytes)
      → p.serialize_response_header (response_header r) ≡ some b
      → FitsResponseFrame r b
      → decode_response p (frame_bytes b r.payload) ≡ value r
  unfolding decode_response
  decode_response-frame r b e fits = rw (
    split_frame-frame_bytes b r.payload fits.frame_fits,
    laws.parse-serialize_response (response_header r) b
        (record {
          request_id_fits = fits.request_id_fits;
          status_code_fits = fits.status_fits;
          payload_size_fits = omega arith;
        })
        e,
    wraps_not (length r.payload) (omega (arith, fits.frame_fits)),
    ==_refl (length r.payload),
    of_int32-to_int32 r.status,
  )

  -- If the protobuf runtime parses what it serialized, a request whose header serializes and whose
  -- sizes fit their fields is encoded, and the frame decodes to the same request.
  pub decode_request-encode_request :
      (r : RpcRequest) (b : Bytes)
      → p.serialize_header (request_header r) ≡ some b
      → FitsFrame r b
      → (f : Bytes) × (encode_request p r ≡ value f) × (decode_request p f ≡ value r)
  decode_request-encode_request r b e fits = (
    frame_bytes b (r.metadata ++ r.payload),
    encode_request-frame p r b e fits,
    decode_request-frame r b e fits,
  )

  -- If the protobuf runtime parses what it serialized, a response whose header serializes and
  -- whose sizes fit their fields is encoded, and the frame decodes to the same response, its
  -- status code included.
  pub decode_response-encode_response :
      (r : RpcResponse) (b : Bytes)
      → p.serialize_response_header (response_header r) ≡ some b
      → FitsResponseFrame r b
      → (f : Bytes) × (encode_response p r ≡ value f) × (decode_response p f ≡ value r)
  decode_response-encode_response r b e fits = (
    frame_bytes b r.payload,
    encode_response-frame p r b e fits,
    decode_response-frame r b e fits,
  )

-- What EncodeFrame returns is as long as its parts and the two sizes.
pub length-encode_frame :
    (h b f : Bytes) → encode_frame h b ≡ value f → length f ≡ 8 + length h + length b
unfolding encode_frame
length-encode_frame h b f e =
    let size = (4 + length h + length b) % 2 ^ 32 in
    let parts : be32 size ++ (be32 (length h % 2 ^ 32) ++ (h ++ b)) ≡ f = cc in
    omega (
      arith,
      ap length parts,
      length-append (be32 size) (be32 (length h % 2 ^ 32) ++ (h ++ b)),
      length-append (be32 (length h % 2 ^ 32)) (h ++ b),
      length-append h b,
      length-be32 size,
      length-be32 (length h % 2 ^ 32),
    )

module _ (p : Protobuf) (laws : IsProtobuf p) where
  -- Every request frame that was encoded and is shorter than 2 ^ 32 bytes decodes to its request.
  pub decode_request_encoded :
      (r : RpcRequest) (f : Bytes)
      → r.request_id < 2 ^ 64
      → encode_request p r ≡ value f
      → length f < 2 ^ 32
      → decode_request p f ≡ value r
  unfolding encode_request
  decode_request_encoded r f id e short =
      let (b, s, framed) = >>=-eq-value (or_fail (p.serialize_header (request_header r)) _) _ e in
      let header = or_fail-eq-value (p.serialize_header (request_header r)) _ s in
      let size = length-encode_frame b (r.metadata ++ r.payload) f framed in
      let fits : FitsFrame r b = record {
        request_id_fits = id;
        frame_fits = omega (arith, size, length-append r.metadata r.payload);
      } in
      let (g, encoded, decoded) = decode_request-encode_request p laws r b header fits in
      let same : g ≡ f = value_injective (sym encoded ∙ e) in rw (← same) decoded

  -- Every response frame that was encoded and is shorter than 2 ^ 32 bytes decodes to its response.
  pub decode_response_encoded :
      (r : RpcResponse) (f : Bytes)
      → r.request_id < 2 ^ 64
      → to_int32 r.status < 2 ^ 32
      → encode_response p r ≡ value f
      → length f < 2 ^ 32
      → decode_response p f ≡ value r
  unfolding encode_response
  decode_response_encoded r f id status e short =
      let (b, s, framed) =
        >>=-eq-value (or_fail (p.serialize_response_header (response_header r)) _) _ e in
      let header = or_fail-eq-value (p.serialize_response_header (response_header r)) _ s in
      let size = length-encode_frame b r.payload f framed in
      let fits : FitsResponseFrame r b = record {
        request_id_fits = id;
        status_fits = status;
        frame_fits = omega (arith, size);
      } in
      let (g, encoded, decoded) = decode_response-encode_response p laws r b header fits in
      let same : g ≡ f = value_injective (sym encoded ∙ e) in rw (← same) decoded
