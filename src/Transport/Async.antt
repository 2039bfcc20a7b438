-- ===== src/Transport/Async.antt =====
-- src/client_transport.cc: the coroutines, which have no caller in the repository. `co_await` on a
-- wait of the runtime is the wait's result; awaiting a coroutine of this class runs it. Where a script
-- ends, the socket is not ready and the wait times out.
use hxrpc.Codec.Wire.{read_be32}
use hxrpc.Common.{
  ℕ, zero, suc, ◌+◌, ◌-◌, Bool, true, false, ◌||◌, List, [], ◌∷◌, ◌++◌, Option, none, some, Bytes,
  codes, length, take, drop, min, leb, ltb, if◌then◌else◌, Expected, value, unexpected,
}
use hxrpc.Transport.Io.{
  SendResult, written, RecvResult, received, Sent, Received, network_error, build_system_error,
  send_failed, all_sent, leave, prepend, refused, recv_failed, max_frame_size,
}
use hxrpc.Transport.{Transport, ConfigureSteps, configure_socket, close_socket, bucket, pop}
use hxrpc.Types.{Endpoint, RpcError, RpcStatusCode, endpoint_to_string}

send_timed_out : ℕ → List SendResult → Sent
send_timed_out n rs = record {
  result = unexpected (network_error (codes "send timed out"));
  offset = n;
  sends = rs;
}

-- TcpClientTransport::SendAllAsync
unfoldable pub send_all_async : Bytes → ℕ → List SendResult → Sent
unfolding send_timed_out send_failed
send_all_async bytes n [] = if ltb n (length bytes) then send_timed_out n [] else all_sent n []
send_all_async bytes n (written zero ∷ rs) =
    if ltb n (length bytes)
    then record {
      result = unexpected (network_error (codes "send returned zero bytes"));
      offset = n;
      sends = rs;
    }
    else all_sent n (written zero ∷ rs)
send_all_async bytes n (written (suc k) ∷ rs) =
    let rest = send_all_async bytes (n + min (suc k) (length bytes - n)) rs in
    if ltb n (length bytes) then rest else all_sent n (written (suc k) ∷ rs)
send_all_async bytes n (SendResult.interrupted ∷ rs) =
    let rest = send_all_async bytes n rs in
    if ltb n (length bytes) then rest else all_sent n (SendResult.interrupted ∷ rs)
send_all_async bytes n (SendResult.would_block reason false ∷ rs) =
    if ltb n (length bytes)
    then send_timed_out n rs
    else all_sent n (SendResult.would_block reason false ∷ rs)
send_all_async bytes n (SendResult.would_block reason true ∷ rs) =
    let rest = send_all_async bytes n rs in
    if ltb n (length bytes) then rest else all_sent n (SendResult.would_block reason true ∷ rs)
send_all_async bytes n (SendResult.failed reason ∷ rs) =
    if ltb n (length bytes)
    then send_failed reason n rs
    else all_sent n (SendResult.failed reason ∷ rs)

-- TcpClientTransport::RecvAllAsync, for the number of bytes still missing.
unfoldable pub recv_all_async : ℕ → List RecvResult → Received
recv_all_async zero rs = record { result = value []; recvs = rs }
recv_all_async (suc n) [] = refused (codes "recv timed out") []
recv_all_async (suc n) (received [] ∷ rs) = refused (codes "peer closed connection") rs
recv_all_async (suc n) (received (b ∷ bs) ∷ rs) =
    let rest = recv_all_async (n - length bs) rs in
    if leb (suc n) (length (b ∷ bs))
    then record { result = value (take (suc n) (b ∷ bs)); recvs = leave (drop (suc n) (b ∷ bs)) rs }
    else record { result = prepend (b ∷ bs) rest.result; recvs = rest.recvs }
recv_all_async (suc n) (RecvResult.interrupted ∷ rs) = recv_all_async (suc n) rs
recv_all_async (suc n) (RecvResult.would_block reason true ∷ rs) = recv_all_async (suc n) rs
recv_all_async (suc n) (RecvResult.would_block reason false ∷ rs) =
    refused (codes "recv timed out") rs
recv_all_async (suc n) (RecvResult.failed reason ∷ rs) = recv_failed reason rs

unfoldable pub receive_body_async : Bytes → List RecvResult → Received
receive_body_async head rs =
    let frame_size = read_be32 head in
    if ltb frame_size 4 || ltb max_frame_size frame_size
    then record {
      result = unexpected (record {
        code = RpcStatusCode.invalid_packet;
        message = codes "response frame length is invalid";
      });
      recvs = rs;
    }
    else (let body = recv_all_async frame_size rs in
        record { result = prepend head body.result; recvs = body.recvs })

-- TcpClientTransport::ReceiveFrameAsync
unfoldable pub receive_frame_async : List RecvResult → Received
unfolding receive_body_async
receive_frame_async rs =
    let head = recv_all_async 4 rs in
    elim head.result [
      | unexpected e ↦ record { result = unexpected e; recvs = head.recvs }
      | value bytes ↦ receive_body_async bytes head.recvs
    ]

-- ::connect on a socket that does not block.
pub data ConnectResult : Type 0 where
  connected in_progress : ConnectResult
  connect_failed : Bytes → ConnectResult

-- `set_nonblocking` is the error of fcntl; `ready` the wait for EPOLLOUT; `socket_error` the error
-- of getsockopt or the one that it reports.
pub record AsyncConnectSteps : Type 0 where
  pub socket_result : Expected ℕ Bytes
  pub set_nonblocking : Option Bytes
  pub configure : ConfigureSteps
  pub address_is_ipv4 : Bool
  pub connect_result : ConnectResult
  pub ready : Bool
  pub socket_error : Option Bytes

-- The close of the new socket, and the error.
unfoldable pub give_up : RpcError → ℕ → Transport → Expected ℕ RpcError × Transport
give_up e fd t = (unexpected e, close_socket fd t)

-- A connection in progress.
unfoldable pub await_connect : Bool → Option Bytes → ℕ → Transport → Expected ℕ RpcError × Transport
unfolding give_up
await_connect false socket_error fd t = give_up (network_error (codes "connect timed out")) fd t
await_connect true (some reason) fd t =
    give_up (network_error (build_system_error (codes "connect failed") reason)) fd t
await_connect true none fd t = (value fd, t)

unfoldable pub after_connect :
    AsyncConnectSteps → ConnectResult → ℕ → Transport → Expected ℕ RpcError × Transport
unfolding give_up await_connect
after_connect steps connected fd t = (value fd, t)
after_connect steps in_progress fd t = await_connect steps.ready steps.socket_error fd t
after_connect steps (connect_failed reason) fd t =
    give_up (network_error (build_system_error (codes "connect failed") reason)) fd t

-- ConnectToAsync, from the configured socket on.
unfoldable pub connect_configured :
    AsyncConnectSteps
    → Expected (Unit {0}) RpcError
    → ℕ
    → Transport
    → Expected ℕ RpcError × Transport
unfolding give_up after_connect
connect_configured steps (unexpected e) fd t = give_up e fd t
connect_configured steps (value u) fd t =
    if steps.address_is_ipv4
    then after_connect steps steps.connect_result fd t
    else give_up (network_error (codes "endpoint host is not a valid IPv4 address")) fd t

unfoldable pub connect_new :
    AsyncConnectSteps → Option Bytes → ℕ → Transport → Expected ℕ RpcError × Transport
unfolding give_up connect_configured
connect_new steps (some reason) fd t =
    give_up (network_error (build_system_error (codes "fcntl failed") reason)) fd t
connect_new steps none fd t = connect_configured steps (configure_socket steps.configure) fd t

unfoldable pub connect_from :
    AsyncConnectSteps → Expected ℕ Bytes → Transport → Expected ℕ RpcError × Transport
unfolding connect_new
connect_from steps (unexpected reason) t =
    (unexpected (network_error (build_system_error (codes "socket failed") reason)), t)
connect_from steps (value fd) t =
    connect_new steps steps.set_nonblocking fd (record t { opened = t.opened ++ fd ∷ [] })

-- TcpClientTransport::ConnectToAsync
unfoldable pub connect_to_async : AsyncConnectSteps → Transport → Expected ℕ RpcError × Transport
unfolding connect_from
connect_to_async steps t = connect_from steps steps.socket_result t

-- The set-up of a connection that was idle, on the results of SetSocketBlockingMode and
-- ConfigureSocket.
unfoldable pub reuse_async :
    Bool
    → Expected (Unit {0}) RpcError
    → AsyncConnectSteps
    → ℕ
    → Transport
    → Expected ℕ RpcError × Transport
reuse_async false configured steps fd t = connect_to_async steps (close_socket fd t)
reuse_async true (unexpected e) steps fd t = connect_to_async steps (close_socket fd t)
reuse_async true (value u) steps fd t = (value fd, t)

unfoldable pub borrow_from_async :
    List ℕ
    → Bytes
    → Bool
    → ConfigureSteps
    → AsyncConnectSteps
    → Transport
    → Expected ℕ RpcError × Transport
unfolding reuse_async
borrow_from_async [] key nonblocking reuse steps t = connect_to_async steps t
borrow_from_async (fd ∷ fds) key nonblocking reuse steps t =
    reuse_async nonblocking (configure_socket reuse) steps fd (pop key fds t)

-- TcpClientTransport::BorrowConnectionAsync
unfoldable pub borrow_connection_async :
    Endpoint
    → Bool
    → ConfigureSteps
    → AsyncConnectSteps
    → Transport
    → Expected ℕ RpcError × Transport
unfolding borrow_from_async
borrow_connection_async endpoint nonblocking reuse steps t =
    let key = endpoint_to_string endpoint in
    borrow_from_async (bucket key t) key nonblocking reuse steps t
