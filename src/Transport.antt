-- ===== src/Transport.antt =====
-- src/client_transport.cc and src/include/client_transport.h: the client's TCP connections.
-- The mutex makes each use of the idle pool one step. RoundTripAsync only calls RoundTrip; the
-- other coroutines of the file have no caller.
pub mod Io
pub mod Receiving
pub mod Buckets
pub mod Ledger
pub mod Exchange
pub mod Async
pub mod AsyncLedger
pub mod AsyncReceiving
use hxrpc.Common.{
  ℕ, ◌≡◌, Bool, true, false, List, [], ◌∷◌, ◌++◌, Option, none, some, Bytes, codes, length, leb,
  if◌then◌else◌, Expected, value, unexpected, lookup, insert, erase, bytes_eq,
}
use hxrpc.Types.{Endpoint, RpcError, endpoint_to_string}
use Io.{
  SendResult, RecvResult, Sent, send_all, Received, receive_frame, network_error,
  build_system_error,
}

-- The head of a bucket is the back of the vector. `opened` and `closed` are the descriptors that
-- ::socket returned and that ::close got, oldest first.
pub record Transport : Type 0 where
  pub idle_pool : List (Bytes × List ℕ)
  pub opened : List ℕ
  pub closed : List ℕ

-- What the system calls of one round trip give: of ConfigureSocket, whether an option is refused;
-- of ConnectTo; of SetSocketBlockingMode on a reused connection. An error is strerror(errno).
pub record ConfigureSteps : Type 0 where
  pub receive_timeout : Option Bytes
  pub send_timeout : Option Bytes

pub record ConnectSteps : Type 0 where
  pub socket_result : Expected ℕ Bytes
  pub address_is_ipv4 : Bool
  pub configure : ConfigureSteps
  pub connect_result : Option Bytes

pub record RoundTripSteps : Type 0 where
  pub set_blocking : Bool
  pub reuse : ConfigureSteps
  pub connect : ConnectSteps
  pub sends : List SendResult
  pub recvs : List RecvResult

-- TcpClientTransport::ConfigureSocket
unfoldable pub configure_socket : ConfigureSteps → Expected (Unit {0}) RpcError
configure_socket steps = elim steps.receive_timeout [
  | some reason ↦
      unexpected (network_error (build_system_error (codes "setsockopt(RCVTIMEO) failed") reason))
  | none ↦ elim steps.send_timeout [
    | some reason ↦
        unexpected (network_error (build_system_error (codes "setsockopt(SNDTIMEO) failed") reason))
    | none ↦ value tt
  ]
]

-- TcpClientTransport::CloseSocket, of a descriptor that is not negative.
abbrev pub close_socket : ℕ → Transport → Transport
close_socket fd t = record t { closed = t.closed ++ fd ∷ [] }

-- ConnectTo, from the new socket on.
connect_socket : ConnectSteps → ℕ → Transport → Expected ℕ RpcError × Transport
connect_socket steps fd t = elim steps.address_is_ipv4 [
  | false ↦ (
    unexpected (network_error (codes "endpoint host is not a valid IPv4 address")),
    close_socket fd t,
  )
  | true ↦ elim (configure_socket steps.configure) [
    | unexpected e ↦ (unexpected e, close_socket fd t)
    | value u ↦ elim steps.connect_result [
      | some reason ↦ (
        unexpected (network_error (build_system_error (codes "connect failed") reason)),
        close_socket fd t,
      )
      | none ↦ (value fd, t)
    ]
  ]
]

-- TcpClientTransport::ConnectTo
unfoldable pub connect_to : ConnectSteps → Transport → Expected ℕ RpcError × Transport
unfolding connect_socket
connect_to steps t = elim steps.socket_result [
  | unexpected reason ↦
      (unexpected (network_error (build_system_error (codes "socket failed") reason)), t)
  | value fd ↦ connect_socket steps fd (record t { opened = t.opened ++ fd ∷ [] })
]

abbrev pub bucket_of : Option (List ℕ) → List ℕ
bucket_of none = []
bucket_of (some fds) = fds

-- `idle_pool_[key]`
abbrev pub bucket : Bytes → Transport → List ℕ
bucket key t = bucket_of (lookup key t.idle_pool)

-- `pop_back`, and the erasure of the bucket if it is then empty.
abbrev pub pop : Bytes → List ℕ → Transport → Transport
pop key [] t = record t { idle_pool = erase key t.idle_pool }
pop key (fd ∷ fds) t = record t { idle_pool = insert key (fd ∷ fds) t.idle_pool }

-- A connection that was idle, or a new one if it cannot be set up again.
reuse_connection : RoundTripSteps → ℕ → Transport → Expected ℕ RpcError × Transport
reuse_connection steps fd t = elim steps.set_blocking [
  | false ↦ connect_to steps.connect (close_socket fd t)
  | true ↦ elim (configure_socket steps.reuse) [
    | value u ↦ (value fd, t)
    | unexpected e ↦ connect_to steps.connect (close_socket fd t)
  ]
]

-- BorrowConnection, on the bucket of the endpoint.
borrow_from : List ℕ → Bytes → RoundTripSteps → Transport → Expected ℕ RpcError × Transport
unfolding reuse_connection
borrow_from [] key steps t = connect_to steps.connect t
borrow_from (fd ∷ fds) key steps t = reuse_connection steps fd (pop key fds t)

-- TcpClientTransport::BorrowConnection
unfoldable pub borrow_connection :
    Endpoint → RoundTripSteps → Transport → Expected ℕ RpcError × Transport
unfolding borrow_from
borrow_connection endpoint steps t =
    let key = endpoint_to_string endpoint in borrow_from (bucket key t) key steps t

-- kMaxIdlePerEndpoint
abbrev pub max_idle_per_endpoint : ℕ
max_idle_per_endpoint = 8

-- TcpClientTransport::ReturnConnection; `idle_pool_[key]` makes the bucket if there is none.
unfoldable pub return_connection : Endpoint → ℕ → Transport → Transport
return_connection endpoint fd t =
    let key = endpoint_to_string endpoint in
    let fds = bucket key t in
    if leb max_idle_per_endpoint (length fds)
    then close_socket fd (record t { idle_pool = insert key fds t.idle_pool })
    else record t { idle_pool = insert key (fd ∷ fds) t.idle_pool }

-- RoundTrip on a connection: the result of SendAll, then that of ReceiveFrame.
exchange_on :
    Expected (Unit {0}) RpcError
    → Expected Bytes RpcError
    → Endpoint
    → ℕ
    → Transport
    → Expected Bytes RpcError × Transport
exchange_on (unexpected e) received endpoint fd t = (unexpected e, close_socket fd t)
exchange_on (value u) (unexpected e) endpoint fd t = (unexpected e, close_socket fd t)
exchange_on (value u) (value frame) endpoint fd t = (value frame, return_connection endpoint fd t)

-- RoundTrip, on the connection that BorrowConnection gave.
after_borrow :
    Expected ℕ RpcError
    → Endpoint
    → Bytes
    → RoundTripSteps
    → Transport
    → Expected Bytes RpcError × Transport
unfolding exchange_on
after_borrow (unexpected e) endpoint frame steps t = (unexpected e, t)
after_borrow (value fd) endpoint frame steps t =
    exchange_on (send_all frame 0 steps.sends).result (receive_frame steps.recvs).result endpoint fd
      t

-- TcpClientTransport::RoundTrip
unfoldable pub round_trip :
    Endpoint → Bytes → RoundTripSteps → Transport → Expected Bytes RpcError × Transport
unfolding after_borrow
round_trip endpoint frame steps t =
    let (connection, t') = borrow_connection endpoint steps t in
    after_borrow connection endpoint frame steps t'

-- The destructor closes every idle connection.
abbrev pub all_idle : List (Bytes × List ℕ) → List ℕ
all_idle [] = []
all_idle ((key, fds) ∷ pool) = fds ++ all_idle pool

unfoldable pub destroy : Transport → Transport
destroy t = record t { idle_pool = []; closed = t.closed ++ all_idle t.idle_pool }
