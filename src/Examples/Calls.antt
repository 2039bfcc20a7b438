-- ===== src/Examples/Calls.antt =====
-- Whole calls: one that the server serves, and one that it refuses.
use hxrpc.Client.Laws.{Exchanged, request_of}
use hxrpc.Codec.Frame.{encode_frame, split_frame}
use hxrpc.Codec.Wire.{be32, read_be32}
use hxrpc.Codec.{encode_request, encode_response, decode_request}
use hxrpc.Common.{
  ◌≡◌, refl, true, [], Bytes, codes, Expected, value, unexpected, lookup, insert, bytes_eq, same,
}
use hxrpc.Controller.{set_request_metadata}
use hxrpc.Dispatcher.Answers.{Served}
use hxrpc.Dispatcher.Laws.{answer}
use hxrpc.Examples.Setup.{Message, proto, messages, server, net, endpoint, options, client}
use hxrpc.Registry.{register_service, find_method, service_exists, missing}
use hxrpc.Serializer.{serialize, deserialize}
use hxrpc.Server.Laws.{reply}
use hxrpc.Types.{RpcError, to_int32}

abbrev pub bytes_of : Expected Bytes RpcError → Bytes
bytes_of (value b) = b
bytes_of (unexpected e) = []

abbrev pub request : Message
request = (codes "Request", codes "hi")

abbrev pub response : Message
response = (codes "Response", codes "old")

-- The frame of a call of the service `Echo`.
abbrev pub frame_for : Bytes → Bytes
frame_for method = bytes_of (
    encode_request proto
      (request_of proto messages net (codes "Echo") method (codes "hi") options client))

abbrev pub Exchange : Bytes → Type 0
Exchange method = Exchanged proto messages net (codes "Echo") method request options client

-- The exchange of a call; the network answers with the server's reply.
unfoldable pub say : Exchange (codes "say")
unfolding codes serialize encode_request encode_frame be32 reply answer decode_request split_frame
    read_be32 find_method register_service lookup insert same deserialize set_request_metadata
    encode_response to_int32
say = record {
  instance_result = record { id = codes "one"; endpoint = endpoint };
  payload = codes "hi";
  frame = frame_for (codes "say");
  response_frame = bytes_of (reply server (frame_for (codes "say")));
  after_resolve = tt;
  after_round_trip = tt;
  resolved = refl;
  serialized = refl;
  encoded = refl;
  answered = refl;
}

unfoldable pub say-Served :
    Served server
      (request_of proto messages net (codes "Echo") (codes "say") (codes "hi") options client)
      (bytes_of (reply server (frame_for (codes "say"))))
unfolding codes encode_request encode_frame be32 reply answer decode_request split_frame read_be32
    find_method register_service lookup insert same deserialize serialize set_request_metadata
    encode_response to_int32
say-Served = record {
  method = record { service_name = codes "Echo"; method_name = codes "say"; service = 7 };
  parsed = (codes "Request", codes "hi");
  payload = codes "abhi";
  found = refl;
  deserialized = refl;
  done = refl;
  serialized = refl;
  encoded = refl;
}

pub answer_shout : answer server (frame_for (codes "shout")) ≡ unexpected (missing true)
unfolding codes encode_request encode_frame be32 answer decode_request split_frame read_be32
    find_method register_service service_exists lookup insert same
answer_shout = refl
