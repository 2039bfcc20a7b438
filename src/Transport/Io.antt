-- ===== src/Transport/Io.antt =====
-- src/client_transport.cc: the send and receive loops, on the results that ::send and ::recv give.
-- The sockets have SO_SNDTIMEO and SO_RCVTIMEO set: where the script ends, the call times out,
-- which is EAGAIN.
use hxrpc.Codec.Wire.{read_be32}
use hxrpc.Common.{
  ℕ, zero, suc, ◌+◌, ◌-◌, ◌*◌, Bool, ◌||◌, List, [], ◌∷◌, ◌++◌, Bytes, codes, length, take, drop,
  min, leb, ltb, if◌then◌else◌, Expected, value, unexpected,
}
use hxrpc.Types.{RpcError, RpcStatusCode}

-- An error carries the text of strerror(errno). `would_block reason ready` is EAGAIN or
-- EWOULDBLOCK; `ready` is what waiting for the socket then returns, where the source waits.
pub data SendResult : Type 0 where
  written : ℕ → SendResult
  interrupted : SendResult
  would_block : Bytes → Bool → SendResult
  failed : Bytes → SendResult

-- `received []` is the end of the stream. A piece is what has arrived, and may be more than a call
-- asks for.
pub data RecvResult : Type 0 where
  received : Bytes → RecvResult
  interrupted : RecvResult
  would_block : Bytes → Bool → RecvResult
  failed : Bytes → RecvResult

abbrev pub network_error : Bytes → RpcError
network_error m = record { code = RpcStatusCode.network_error; message = m }

-- BuildSystemError
abbrev pub build_system_error : Bytes → Bytes → Bytes
build_system_error prefix reason = prefix ++ (codes ": " ++ reason)

abbrev pub timed_out : Bytes
timed_out = codes "Resource temporarily unavailable"

-- What a send loop returns, the bytes sent and the results left.
pub record Sent : Type 0 where
  pub result : Expected (Unit {0}) RpcError
  pub offset : ℕ
  pub sends : List SendResult

unfoldable pub send_failed : Bytes → ℕ → List SendResult → Sent
send_failed reason n rs = record {
  result = unexpected (network_error (build_system_error (codes "send failed") reason));
  offset = n;
  sends = rs;
}

abbrev pub all_sent : ℕ → List SendResult → Sent
all_sent n rs = record { result = value tt; offset = n; sends = rs }

-- TcpClientTransport::SendAll
unfoldable pub send_all : Bytes → ℕ → List SendResult → Sent
unfolding send_failed
send_all bytes n [] = if ltb n (length bytes) then send_failed timed_out n [] else all_sent n []
send_all bytes n (written zero ∷ rs) =
    if ltb n (length bytes)
    then record {
      result = unexpected (network_error (codes "send returned zero bytes"));
      offset = n;
      sends = rs;
    }
    else all_sent n (written zero ∷ rs)
send_all bytes n (written (suc k) ∷ rs) =
    let rest = send_all bytes (n + min (suc k) (length bytes - n)) rs in
    if ltb n (length bytes) then rest else all_sent n (written (suc k) ∷ rs)
send_all bytes n (SendResult.interrupted ∷ rs) =
    let rest = send_all bytes n rs in
    if ltb n (length bytes) then rest else all_sent n (SendResult.interrupted ∷ rs)
send_all bytes n (SendResult.would_block reason ready ∷ rs) =
    if ltb n (length bytes)
    then send_failed reason n rs
    else all_sent n (SendResult.would_block reason ready ∷ rs)
send_all bytes n (SendResult.failed reason ∷ rs) =
    if ltb n (length bytes)
    then send_failed reason n rs
    else all_sent n (SendResult.failed reason ∷ rs)

-- What a receive loop returns, the bytes of the buffer or an error, and the results left.
pub record Received : Type 0 where
  pub result : Expected Bytes RpcError
  pub recvs : List RecvResult

-- The bytes of a piece that a call leaves in the socket.
abbrev pub leave : Bytes → List RecvResult → List RecvResult
leave [] rs = rs
leave (b ∷ bs) rs = received (b ∷ bs) ∷ rs

-- The bytes of one call in front of those of the later ones.
abbrev pub prepend : Bytes → Expected Bytes RpcError → Expected Bytes RpcError
prepend c (value b) = value (c ++ b)
prepend c (unexpected e) = unexpected e

abbrev pub refused : Bytes → List RecvResult → Received
refused message rs = record { result = unexpected (network_error message); recvs = rs }

abbrev pub recv_failed : Bytes → List RecvResult → Received
recv_failed reason rs = refused (build_system_error (codes "recv failed") reason) rs

-- TcpClientTransport::RecvAll, for the number of bytes still missing.
unfoldable pub recv_all : ℕ → List RecvResult → Received
recv_all zero rs = record { result = value []; recvs = rs }
recv_all (suc n) [] = recv_failed timed_out []
recv_all (suc n) (received [] ∷ rs) = refused (codes "peer closed connection") rs
recv_all (suc n) (received (b ∷ bs) ∷ rs) =
    let rest = recv_all (n - length bs) rs in
    if leb (suc n) (length (b ∷ bs))
    then record { result = value (take (suc n) (b ∷ bs)); recvs = leave (drop (suc n) (b ∷ bs)) rs }
    else record { result = prepend (b ∷ bs) rest.result; recvs = rest.recvs }
recv_all (suc n) (RecvResult.interrupted ∷ rs) = recv_all (suc n) rs
recv_all (suc n) (RecvResult.would_block reason ready ∷ rs) = recv_failed reason rs
recv_all (suc n) (RecvResult.failed reason ∷ rs) = recv_failed reason rs

-- kMaxFrameSize
abbrev pub max_frame_size : ℕ
max_frame_size = 4 * 1024 * 1024

-- The body of a frame behind its length field.
unfoldable pub receive_body : Bytes → List RecvResult → Received
receive_body head rs =
    let frame_size = read_be32 head in
    if ltb frame_size 4 || ltb max_frame_size frame_size
    then record {
      result = unexpected (record {
        code = RpcStatusCode.invalid_packet;
        message = codes "response frame length is invalid";
      });
      recvs = rs;
    }
    else (let body = recv_all frame_size rs in
        record { result = prepend head body.result; recvs = body.recvs })

-- TcpClientTransport::ReceiveFrame
unfoldable pub receive_frame : List RecvResult → Received
unfolding receive_body
receive_frame rs =
    let head = recv_all 4 rs in
    elim head.result [
      | unexpected e ↦ record { result = unexpected e; recvs = head.recvs }
      | value bytes ↦ receive_body bytes head.recvs
    ]
