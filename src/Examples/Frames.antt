-- ===== src/Examples/Frames.antt =====
-- Frames of the codec.
use hxrpc.Codec.Frame.{encode_frame, split_frame, encode_frame-split_frame}
use hxrpc.Codec.RoundTrip.{decode_request-encode_request, decode_response-encode_response}
use hxrpc.Codec.Wire.{read_be32}
use hxrpc.Codec.{encode_request, encode_response, decode_request, decode_response}
use hxrpc.Common.{◌≡◌, refl, ◌∷◌, Bytes, codes, value, arith}
use hxrpc.Examples.Setup.{proto, proto-IsProtobuf}
use hxrpc.Types.{RpcStatusCode, RpcRequest, RpcResponse, to_int32}

abbrev request : RpcRequest
request = record {
  request_id = 5;
  service_name = codes "Echo";
  method_name = codes "say";
  metadata = codes "ab";
  payload = codes "hi";
}

abbrev response : RpcResponse
response = record {
  request_id = 5;
  status = RpcStatusCode.network_error;
  error_text = codes "gone";
  payload = codes "x";
}

abbrev request_header_bytes : Bytes
request_header_bytes = 5 ∷ 2 ∷ 2 ∷ 4 ∷ codes "Echosay"

decode_request-encode_request_example :
    (f : Bytes) × (encode_request proto request ≡ value f)
    × (decode_request proto f ≡ value request)
unfolding codes
decode_request-encode_request_example =
    decode_request-encode_request proto proto-IsProtobuf request request_header_bytes refl
      (record { request_id_fits = omega arith; frame_fits = omega arith })

decode_response-encode_response_example :
    (f : Bytes) × (encode_response proto response ≡ value f)
    × (decode_response proto f ≡ value response)
unfolding codes to_int32
decode_response-encode_response_example =
    decode_response-encode_response proto proto-IsProtobuf response (5 ∷ 6 ∷ 1 ∷ codes "gone") refl
      (record {
        request_id_fits = omega arith;
        status_fits = omega arith;
        frame_fits = omega arith;
      })

-- The size of the frame, the size of the header, the header "ab" and the payload "c".
abbrev small_frame : Bytes
small_frame = 0 ∷ 0 ∷ 0 ∷ 7 ∷ 0 ∷ 0 ∷ 0 ∷ 2 ∷ codes "abc"

encode_frame-split_frame_example : encode_frame (codes "ab") (codes "c") ≡ value small_frame
unfolding codes split_frame read_be32
encode_frame-split_frame_example =
    encode_frame-split_frame small_frame (codes "ab") (codes "c") (omega arith) refl
