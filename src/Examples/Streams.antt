-- ===== src/Examples/Streams.antt =====
-- Connections: a stream that arrives in two pieces, and a frame sent over short writes.
use hxrpc.Codec.Wire.{read_be32}
use hxrpc.Common.{◌≡◌, ◌≢◌, refl, inr, List, [], ◌∷◌, ◌++◌, some, Bytes, arith, lookup, nat_eq}
use hxrpc.ConnectionManager.Input.Rounds.{KeepsInput, process_input_ends}
use hxrpc.ConnectionManager.Input.Framing.{Cuts, stop, more, IsStuck, Cuts-append}
use hxrpc.ConnectionManager.Input.Reading.{handle_readable_eof}
use hxrpc.ConnectionManager.Input.{
  FrameHandler, done, out_of_fuel, front, handle_frame, process_input, handle_readable,
}
use hxrpc.ConnectionManager.Output.Stream.{Streams, send-Streams}
use hxrpc.ConnectionManager.Output.{send}
use hxrpc.ConnectionManager.State.{ConnectionState, Manager, SendResult, received, written, close}
use hxrpc.Reactor.{fresh}

-- Two frames, the second with one byte of payload.
abbrev pub first : Bytes
first = 0 ∷ 0 ∷ 0 ∷ 5 ∷ 0 ∷ 0 ∷ 0 ∷ 1 ∷ 65 ∷ []

abbrev second : Bytes
second = 0 ∷ 0 ∷ 0 ∷ 6 ∷ 0 ∷ 0 ∷ 0 ∷ 1 ∷ 65 ∷ 66 ∷ []

-- The first piece ends inside the second frame.
abbrev arrived : Bytes
arrived = first ++ (0 ∷ 0 ∷ 0 ∷ [])

abbrev late : Bytes
late = 6 ∷ 0 ∷ 0 ∷ 0 ∷ 1 ∷ 65 ∷ 66 ∷ []

arrived-Cuts : Cuts arrived (first ∷ []) (0 ∷ 0 ∷ 0 ∷ [])
unfolding front read_be32
arrived-Cuts = more refl stop

late-Cuts : Cuts ((0 ∷ 0 ∷ 0 ∷ []) ++ late) (second ∷ []) []
unfolding front read_be32
late-Cuts = more refl stop

nil-IsStuck : IsStuck []
unfolding front
nil-IsStuck f r = λ e. cc

Cuts-append_example : Cuts (first ++ second) (first ∷ second ∷ []) []
Cuts-append_example = Cuts-append late arrived-Cuts late-Cuts

whole-Cuts : Cuts (first ++ second) (first ∷ second ∷ []) []
unfolding front read_be32
whole-Cuts = more refl (more refl stop)

abbrev pub connection : Bytes → Bytes → ConnectionState
connection input output = record { input_buffer = input; output_buffer = output; bytes_sent = 0 }

-- The connections 5 and 6; the kernel takes two bytes, is interrupted, and then blocks.
abbrev pub manager : Bytes → Manager
manager input = record {
  listen_fd = some 3;
  connections = (5, connection input (9 ∷ [])) ∷ (6, connection [] []) ∷ [];
  reactor = fresh;
  sends = written 2 ∷ SendResult.interrupted ∷ SendResult.would_block ∷ [];
  recvs = received first ∷ received [] ∷ [];
  accepts = [];
  closed = [];
  wire = [];
}

send-Streams_example : Streams 5 (9 ∷ first) (send 5 first (manager []))
unfolding lookup
send-Streams_example = send-Streams 5 first (connection [] (9 ∷ [])) (manager []) refl (omega arith)

-- A handler that keeps the frames it gets.
abbrev keep : FrameHandler (List Bytes)
keep = some (λ fd f w. (w.0, f ∷ w.1))

keep-KeepsInput : KeepsInput keep 5
unfolding handle_frame
keep-KeepsInput f w st e = inr (st, e, refl)

process_input_ends_example :
    process_input keep 5 (manager (first ++ second), []) ≢ out_of_fuel (manager [], [])
process_input_ends_example =
    process_input_ends keep 5 keep-KeepsInput (manager (first ++ second), []) (manager [], [])

handle_readable_eof_example :
    handle_readable keep 5 (manager [], [])
    ≡ done (close 5 (record (manager []) { recvs = [] }), [])
unfolding lookup
handle_readable_eof_example =
    handle_readable_eof keep 5 (manager [], []) (connection [] (9 ∷ [])) (first ∷ []) [] refl
      ((λ h. cc), tt) refl
