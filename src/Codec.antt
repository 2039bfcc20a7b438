-- ===== src/Codec.antt =====
-- src/codec.cc: RpcCodec. The protobuf messages of src/header.proto are generated code:
-- their serializers are the parameter `Protobuf`, with their documented round trip as the
-- hypothesis `IsProtobuf`.
pub mod Wire
pub mod Frame
pub mod RoundTrip
pub mod Reject
use hxrpc.Common.{
  ℕ, ◌+◌, ◌%◌, ◌^◌, ◌<◌, ◌≡◌, not, ◌++◌, Option, some, Bytes, codes, length, take, drop, ◌==◌,
  Expected, value, ◌>>=◌, ◌>>◌, fail_if, or_fail,
}
use hxrpc.Types.{RpcError, RpcStatusCode, RpcRequest, RpcResponse, to_int32, of_int32}
use Frame.{encode_frame, split_frame, invalid_packet_error}

-- message RpcHeader
pub record RpcHeader : Type 0 where
  pub request_id : ℕ
  pub service_name : Bytes
  pub method_name : Bytes
  pub args_size : ℕ
  pub meta_size : ℕ

-- message RpcResponseHeader
pub record RpcResponseHeader : Type 0 where
  pub request_id : ℕ
  pub status_code : ℕ
  pub error_text : Bytes
  pub payload_size : ℕ

-- SerializeToString, `none` for false, and ParseFromArray, of the two generated messages.
pub record Protobuf : Type 0 where
  pub serialize_header : RpcHeader → Option Bytes
  pub parse_header : Bytes → Option RpcHeader
  pub serialize_response_header : RpcResponseHeader → Option Bytes
  pub parse_response_header : Bytes → Option RpcResponseHeader

-- The fields lie in their wire types.
pub record FitsHeader (h : RpcHeader) : Type 0 where
  pub request_id_fits : h.request_id < 2 ^ 64
  pub args_size_fits : h.args_size < 2 ^ 32
  pub meta_size_fits : h.meta_size < 2 ^ 32

pub record FitsResponseHeader (h : RpcResponseHeader) : Type 0 where
  pub request_id_fits : h.request_id < 2 ^ 64
  pub status_code_fits : h.status_code < 2 ^ 32
  pub payload_size_fits : h.payload_size < 2 ^ 32

-- What was serialized parses to the same message.
pub record IsProtobuf (p : Protobuf) : Type 0 where
  pub parse-serialize :
      (h : RpcHeader) (b : Bytes)
      → FitsHeader h
      → p.serialize_header h ≡ some b
      → p.parse_header b ≡ some h
  pub parse-serialize_response :
      (h : RpcResponseHeader) (b : Bytes)
      → FitsResponseHeader h
      → p.serialize_response_header h ≡ some b
      → p.parse_response_header b ≡ some h

abbrev pub serialize_error : Bytes → RpcError
serialize_error m = record { code = RpcStatusCode.serialize_error; message = m }

-- The header that EncodeRequest fills in.
abbrev pub request_header : RpcRequest → RpcHeader
request_header r = record {
  request_id = r.request_id;
  service_name = r.service_name;
  method_name = r.method_name;
  args_size = length r.payload % 2 ^ 32;
  meta_size = length r.metadata % 2 ^ 32;
}

-- The header that EncodeResponse fills in.
abbrev pub response_header : RpcResponse → RpcResponseHeader
response_header r = record {
  request_id = r.request_id;
  status_code = to_int32 r.status;
  error_text = r.error_text;
  payload_size = length r.payload % 2 ^ 32;
}

-- RpcCodec::EncodeRequest
unfoldable pub encode_request : Protobuf → RpcRequest → Expected Bytes RpcError
encode_request p request = do
  header_buffer ←
      or_fail (p.serialize_header (request_header request))
        (serialize_error (codes "failed to serialize request header"))
  encode_frame header_buffer (request.metadata ++ request.payload)

-- RpcCodec::EncodeResponse
unfoldable pub encode_response : Protobuf → RpcResponse → Expected Bytes RpcError
encode_response p response = do
  header_buffer ←
      or_fail (p.serialize_response_header (response_header response))
        (serialize_error (codes "failed to serialize response header"))
  encode_frame header_buffer response.payload

-- RpcCodec::DecodeRequest. The cast to int of the header's size, for the parser, loses nothing below
-- 2 ^ 31; the connections pass on no larger frame.
unfoldable pub decode_request : Protobuf → Bytes → Expected RpcRequest RpcError
decode_request p frame = do
  (header_view, payload_view) ← split_frame frame
  header ←
      or_fail (p.parse_header header_view)
        (invalid_packet_error (codes "failed to parse request header"))
  let expected_size = header.meta_size + header.args_size
  fail_if (not (length payload_view == expected_size))
      (invalid_packet_error (codes "request payload length mismatch"))
  value (record {
    request_id = header.request_id;
    service_name = header.service_name;
    method_name = header.method_name;
    metadata = take header.meta_size payload_view;
    payload = drop header.meta_size payload_view;
  })

-- RpcCodec::DecodeResponse. The cast to int is as in DecodeRequest.
unfoldable pub decode_response : Protobuf → Bytes → Expected RpcResponse RpcError
decode_response p frame = do
  (header_view, payload_view) ← split_frame frame
  header ←
      or_fail (p.parse_response_header header_view)
        (invalid_packet_error (codes "failed to parse response header"))
  fail_if (not (length payload_view == header.payload_size))
      (invalid_packet_error (codes "response payload length mismatch"))
  value (record {
    request_id = header.request_id;
    status = of_int32 header.status_code;
    error_text = header.error_text;
    payload = payload_view;
  })
