-- ===== src/Transport/AsyncLedger.antt =====
-- src/client_transport.cc: the account of the descriptors, for the coroutines.
use hxrpc.Common.{
  ℕ, ◌≡◌, refl, Bool, true, false, List, [], ◌∷◌, ◌++◌, Option, none, some, Bytes, Expected, value,
  unexpected, arith, Bool-cases, inl, inr,
}
use hxrpc.Transport.Async.{
  AsyncConnectSteps, ConnectResult, connected, in_progress, connect_failed, give_up, await_connect,
  after_connect, connect_configured, connect_new, connect_from, connect_to_async, reuse_async,
  borrow_from_async, borrow_connection_async,
}
use hxrpc.Transport.Buckets.{count-append}
use hxrpc.Transport.Ledger.{IsLedger, handed, close_socket-IsLedger, pop-IsLedger}
use hxrpc.Transport.{Transport, ConfigureSteps, configure_socket, bucket, pop, close_socket}
use hxrpc.Types.{Endpoint, RpcError, endpoint_to_string}

-- What a call leaves: the ledger, with the descriptor that it hands out.
abbrev Keeps : Expected ℕ RpcError × Transport → Type 0
Keeps r = IsLedger r.1 (handed r.0)

module _ (steps : AsyncConnectSteps) where
  await_connect-Keeps :
      (ready : Bool) (e : Option Bytes) (fd : ℕ) (t : Transport)
      → IsLedger t (fd ∷ [])
      → Keeps (await_connect ready e fd t)
  unfolding await_connect give_up
  await_connect-Keeps false e fd t l = close_socket-IsLedger fd t l
  await_connect-Keeps true (some reason) fd t l = close_socket-IsLedger fd t l
  await_connect-Keeps true none fd t l = l

  after_connect-Keeps :
      (r : ConnectResult) (fd : ℕ) (t : Transport)
      → IsLedger t (fd ∷ [])
      → Keeps (after_connect steps r fd t)
  unfolding after_connect give_up
  after_connect-Keeps connected fd t l = l
  after_connect-Keeps in_progress fd t l = await_connect-Keeps steps.ready steps.socket_error fd t l
  after_connect-Keeps (connect_failed reason) fd t l = close_socket-IsLedger fd t l

  connect_configured-Keeps :
      (r : Expected (Unit {0}) RpcError) (fd : ℕ) (t : Transport)
      → IsLedger t (fd ∷ [])
      → Keeps (connect_configured steps r fd t)
  unfolding connect_configured give_up
  connect_configured-Keeps (unexpected e) fd t l = close_socket-IsLedger fd t l
  connect_configured-Keeps (value u) fd t l = elim (Bool-cases steps.address_is_ipv4) [
    | inl good ↦ rw (good, connect_configured) (after_connect-Keeps steps.connect_result fd t l)
    | inr bad ↦ rw (bad, connect_configured) (close_socket-IsLedger fd t l)
  ]

  connect_new-Keeps :
      (r : Option Bytes) (fd : ℕ) (t : Transport)
      → IsLedger t (fd ∷ [])
      → Keeps (connect_new steps r fd t)
  unfolding connect_new give_up
  connect_new-Keeps (some reason) fd t l = close_socket-IsLedger fd t l
  connect_new-Keeps none fd t l = connect_configured-Keeps (configure_socket steps.configure) fd t l

  connect_from-Keeps :
      (r : Expected ℕ Bytes) (t : Transport) → IsLedger t [] → Keeps (connect_from steps r t)
  unfolding connect_from
  connect_from-Keeps (unexpected reason) t l = l
  connect_from-Keeps (value fd) t l =
      connect_new-Keeps steps.set_nonblocking fd (record t { opened = t.opened ++ fd ∷ [] })
        (record {
          one_bucket = l.one_bucket;
          bounded = l.bounded;
          balance = λ x. omega (arith, l.balance x, count-append x t.opened (fd ∷ []));
        })

  connect_to_async-Keeps : (t : Transport) → IsLedger t [] → Keeps (connect_to_async steps t)
  unfolding connect_to_async
  connect_to_async-Keeps t l = connect_from-Keeps steps.socket_result t l

  reuse_async-Keeps :
      (nonblocking : Bool) (r : Expected (Unit {0}) RpcError) (fd : ℕ) (t : Transport)
      → IsLedger t (fd ∷ [])
      → Keeps (reuse_async nonblocking r steps fd t)
  unfolding reuse_async
  reuse_async-Keeps false r fd t l =
      connect_to_async-Keeps (close_socket fd t) (close_socket-IsLedger fd t l)
  reuse_async-Keeps true (unexpected e) fd t l =
      connect_to_async-Keeps (close_socket fd t) (close_socket-IsLedger fd t l)
  reuse_async-Keeps true (value u) fd t l = l

  borrow_from_async-Keeps :
      (fds : List ℕ) (key : Bytes) (nonblocking : Bool) (reuse : ConfigureSteps) (t : Transport)
      → IsLedger t []
      → bucket key t ≡ fds
      → Keeps (borrow_from_async fds key nonblocking reuse steps t)
  unfolding borrow_from_async
  borrow_from_async-Keeps [] key nonblocking reuse t l e = connect_to_async-Keeps t l
  borrow_from_async-Keeps (fd ∷ fds) key nonblocking reuse t l e =
      reuse_async-Keeps nonblocking (configure_socket reuse) fd (pop key fds t)
        (pop-IsLedger key fd fds t l e)

  -- A connection that BorrowConnectionAsync hands out is the only one in hand, and a connection that
  -- it gives up is closed.
  pub borrow_connection_async-IsLedger :
      (endpoint : Endpoint) (nonblocking : Bool) (reuse : ConfigureSteps) (t : Transport)
      → IsLedger t []
      → IsLedger
          (borrow_connection_async endpoint nonblocking reuse steps t).1
          (handed (borrow_connection_async endpoint nonblocking reuse steps t).0)
  unfolding borrow_connection_async
  borrow_connection_async-IsLedger endpoint nonblocking reuse t l =
      let key = endpoint_to_string endpoint in
      borrow_from_async-Keeps (bucket key t) key nonblocking reuse t l refl
