-- ===== src/Examples/Inputs.antt =====
-- Connections of the server whose input holds the frames of calls.
use hxrpc.Codec.Frame.{encode_frame, split_frame}
use hxrpc.Codec.Wire.{be32, read_be32}
use hxrpc.Codec.{encode_request, encode_response, decode_request}
use hxrpc.Common.{
  ◌≡◌, ◌↔◌, ◌⊎◌, refl, [], ◌∷◌, ◌++◌, none, codes, Bytes, lookup, insert, bytes_eq, nat_eq, same,
}
use hxrpc.ConnectionManager.Input.Delivery.{Delivered, process_input-Delivered}
use hxrpc.ConnectionManager.Input.{World, dangling, front, handle_frame, process_input}
use hxrpc.ConnectionManager.Output.Kept.{Keeps, send_ending}
use hxrpc.ConnectionManager.Output.Whole.{idle_with}
use hxrpc.ConnectionManager.Output.{broken}
use hxrpc.ConnectionManager.State.{Manager, SendResult, find}
use hxrpc.Controller.{set_request_metadata}
use hxrpc.Dispatcher.Laws.{answer}
use hxrpc.Examples.Calls.{frame_for, bytes_of}
use hxrpc.Examples.Parts.{server-KeepsTypes}
use hxrpc.Examples.Setup.{
  Message, proto, net, options, client, messages, messages-IsMessageApi, server,
}
use hxrpc.MessagePool.Laws.{empty_pool-IsValid}
use hxrpc.MessagePool.{MessagePool, empty_pool}
use hxrpc.Reactor.{fresh}
use hxrpc.Registry.{register_service, find_method}
use hxrpc.Serializer.{serialize, deserialize}
use hxrpc.Server.Inputs.{frame_handler-KeepsInput, on_frame_dangling}
use hxrpc.Server.Laws.{reply}
use hxrpc.Client.Laws.{request_of}
use hxrpc.Server.{frame_handler}
use hxrpc.Types.{RpcRequest, to_int32}

-- Connection 7, whose peer is gone: the first ::send fails.
abbrev manager : Bytes → Manager
manager input = record {
  listen_fd = none;
  connections = (7, idle_with input) ∷ [];
  reactor = fresh;
  sends = SendResult.failed ∷ [];
  recvs = [];
  accepts = [];
  closed = [];
  wire = [];
}

abbrev pool : MessagePool Message
pool = empty_pool 4

-- Two calls.
abbrev calls : Bytes
calls = frame_for (codes "say") ++ frame_for (codes "shout")

frame_handler-KeepsInput_example :
    (find 7 (handle_frame (frame_handler server) 7 (frame_for (codes "say")) (manager [], pool)).0
      ≡ none)
    ⊎ Keeps 7
        (idle_with [])
        (handle_frame (frame_handler server) 7 (frame_for (codes "say")) (manager [], pool)).0
unfolding lookup
frame_handler-KeepsInput_example =
    frame_handler-KeepsInput server 7 (frame_for (codes "say")) (manager [], pool) (idle_with [])
      refl

process_input-Delivered_example :
    Delivered
      (frame_handler server)
      7
      (process_input (frame_handler server) 7 (manager calls, pool))
      (manager calls, pool)
      calls
unfolding lookup
process_input-Delivered_example =
    process_input-Delivered (frame_handler server) 7 (frame_handler-KeepsInput server 7)
      (manager calls, pool) (idle_with calls) refl

abbrev called : Bytes
called = frame_for (codes "say")

on_frame_dangling_example :
    ((v : World (MessagePool Message)) × (process_input
          (frame_handler server)
          7
          (manager called, pool)
        ≡ dangling v))
    ↔ (send_ending (bytes_of (reply server called)) (idle_with called) (manager called) ≡ broken)
unfolding codes serialize encode_request encode_frame be32 reply answer decode_request split_frame
    read_be32 find_method register_service lookup insert same deserialize set_request_metadata
    encode_response to_int32 front
on_frame_dangling_example =
    on_frame_dangling server 7 (idle_with called) (manager called) pool called []
      (bytes_of (reply server called)) refl refl messages-IsMessageApi server-KeepsTypes
      (empty_pool-IsValid messages 4) refl refl refl

abbrev say_request : RpcRequest
say_request = request_of proto messages net (codes "Echo") (codes "say") (codes "hi") options client
