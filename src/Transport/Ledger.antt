-- ===== src/Transport/Ledger.antt =====
-- src/client_transport.cc: the account of the descriptors.
use hxrpc.Common.{
  ℕ, ◌+◌, ◌≤◌, ◌≡◌, refl, ap, List, [], ◌∷◌, ◌++◌, Bytes, length, leb, Expected, value, unexpected,
  bytes_eq, arith, lookup-insert, lookup-erase, Bool-cases, inl, inr, Expected-cases, Option-cases,
}
use hxrpc.Transport.Buckets.{
  count, count-append, HasOneBucket, HasOneBucket-insert, HasOneBucket-erase, count-insert,
  count-erase,
}
use hxrpc.Transport.{
  Transport, ConnectSteps, RoundTripSteps, connect_socket, connect_to, bucket, pop,
  reuse_connection, borrow_from, borrow_connection, after_borrow, return_connection, exchange_on,
  round_trip, all_idle, destroy, close_socket, max_idle_per_endpoint, configure_socket,
}
use hxrpc.Transport.Io.{send_all, receive_frame}
use hxrpc.Types.{Endpoint, RpcError, endpoint_to_string}

-- Every descriptor that was opened was closed, is idle, or is one of those in hand, once for each
-- time that it was opened; no bucket is over its limit.
pub record IsLedger (t : Transport) (in_hand : List ℕ) : Type 0 where
  pub one_bucket : HasOneBucket t.idle_pool
  pub bounded : (key : Bytes) → length (bucket key t) ≤ max_idle_per_endpoint
  pub balance :
      (fd : ℕ)
      → count fd t.opened ≡ count fd t.closed + (count fd (all_idle t.idle_pool) + count fd in_hand)

-- The descriptor that a call hands to its caller.
abbrev pub handed : Expected ℕ RpcError → List ℕ
handed (value fd) = fd ∷ []
handed (unexpected e) = []

pub close_socket-IsLedger :
    (fd : ℕ) (t : Transport) → IsLedger t (fd ∷ []) → IsLedger (close_socket fd t) []
close_socket-IsLedger fd t l = record {
  one_bucket = l.one_bucket;
  bounded = l.bounded;
  balance = λ x. omega (arith, l.balance x, count-append x t.closed (fd ∷ []));
}

connect_socket-IsLedger :
    (steps : ConnectSteps) (fd : ℕ) (t : Transport)
    → IsLedger t (fd ∷ [])
    → IsLedger (connect_socket steps fd t).1 (handed (connect_socket steps fd t).0)
unfolding connect_socket
connect_socket-IsLedger steps fd t l = elim (Bool-cases steps.address_is_ipv4) [
  | inr bad ↦ rw bad (close_socket-IsLedger fd t l)
  | inl good ↦ elim (Expected-cases (configure_socket steps.configure)) [
    | inr (e, bad) ↦ rw (good, connect_socket, bad) (close_socket-IsLedger fd t l)
    | inl (u, set) ↦ elim (Option-cases steps.connect_result) [
      | inl connected ↦ rw (good, connect_socket, set, connected) l
      | inr (reason, bad) ↦ rw (good, connect_socket, set, bad) (close_socket-IsLedger fd t l)
    ]
  ]
]

connect_to-IsLedger :
    (steps : ConnectSteps) (t : Transport)
    → IsLedger t []
    → IsLedger (connect_to steps t).1 (handed (connect_to steps t).0)
unfolding connect_to
connect_to-IsLedger steps t l = elim (Expected-cases steps.socket_result) [
  | inr (reason, bad) ↦ rw bad l
  | inl (fd, good) ↦ rw good (
      connect_socket-IsLedger steps fd (record t { opened = t.opened ++ fd ∷ [] })
        (record {
          one_bucket = l.one_bucket;
          bounded = l.bounded;
          balance = λ x. omega (arith, l.balance x, count-append x t.opened (fd ∷ []));
        }))
]

-- Taking the back of a bucket puts it in the caller's hand.
pub pop-IsLedger :
    (key : Bytes) (fd : ℕ) (fds : List ℕ) (t : Transport)
    → IsLedger t []
    → bucket key t ≡ fd ∷ fds
    → IsLedger (pop key fds t) (fd ∷ [])
pop-IsLedger key fd [] t l e = record {
  one_bucket = HasOneBucket-erase key t.idle_pool l.one_bucket;
  bounded = λ j. ground (arith, lookup-erase key j t.idle_pool, l.bounded j);
  balance =
      λ x. omega (arith, l.balance x, count-erase x key t.idle_pool l.one_bucket, ap (count x) e);
}
pop-IsLedger key fd (y ∷ fds) t l e = record {
  one_bucket = HasOneBucket-insert key (y ∷ fds) t.idle_pool l.one_bucket;
  bounded = λ j.
      ground
        (arith, lookup-insert key j (y ∷ fds) t.idle_pool, l.bounded j, l.bounded key, ap length e);
  balance =
      λ x. omega (arith, l.balance x, count-insert x key (y ∷ fds) t.idle_pool, ap (count x) e);
}

reuse_connection-IsLedger :
    (steps : RoundTripSteps) (fd : ℕ) (t : Transport)
    → IsLedger t (fd ∷ [])
    → IsLedger (reuse_connection steps fd t).1 (handed (reuse_connection steps fd t).0)
unfolding reuse_connection
reuse_connection-IsLedger steps fd t l =
    let again =
      connect_to-IsLedger steps.connect (close_socket fd t) (close_socket-IsLedger fd t l) in
    elim (Bool-cases steps.set_blocking) [
      | inr bad ↦ rw bad again
      | inl good ↦ elim (Expected-cases (configure_socket steps.reuse)) [
        | inr (e, bad) ↦ rw (good, reuse_connection, bad) again
        | inl (u, set) ↦ rw (good, reuse_connection, set) l
      ]
    ]

borrow_from-IsLedger :
    (fds : List ℕ) (key : Bytes) (steps : RoundTripSteps) (t : Transport)
    → IsLedger t []
    → bucket key t ≡ fds
    → IsLedger (borrow_from fds key steps t).1 (handed (borrow_from fds key steps t).0)
unfolding borrow_from
borrow_from-IsLedger [] key steps t l e = connect_to-IsLedger steps.connect t l
borrow_from-IsLedger (fd ∷ fds) key steps t l e =
    reuse_connection-IsLedger steps fd (pop key fds t) (pop-IsLedger key fd fds t l e)

-- A connection that BorrowConnection hands out is the only one in hand.
pub borrow_connection-IsLedger :
    (endpoint : Endpoint) (steps : RoundTripSteps) (t : Transport)
    → IsLedger t []
    → IsLedger
        (borrow_connection endpoint steps t).1
        (handed (borrow_connection endpoint steps t).0)
unfolding borrow_connection
borrow_connection-IsLedger endpoint steps t l =
    let key = endpoint_to_string endpoint in borrow_from-IsLedger (bucket key t) key steps t l refl

pub return_connection-IsLedger :
    (endpoint : Endpoint) (fd : ℕ) (t : Transport)
    → IsLedger t (fd ∷ [])
    → IsLedger (return_connection endpoint fd t) []
unfolding return_connection
return_connection-IsLedger endpoint fd t l =
    let key = endpoint_to_string endpoint in
    let fds = bucket key t in
    elim (Bool-cases (leb max_idle_per_endpoint (length fds))) [
      | inl full ↦ rw full (record {
        one_bucket = HasOneBucket-insert key fds t.idle_pool l.one_bucket;
        bounded =
            λ j. ground (arith, lookup-insert key j fds t.idle_pool, l.bounded j, l.bounded key);
        balance = λ x. omega (
          arith,
          l.balance x,
          count-insert x key fds t.idle_pool,
          count-append x t.closed (fd ∷ []),
        );
      })
      | inr room ↦ rw room (record {
        one_bucket = HasOneBucket-insert key (fd ∷ fds) t.idle_pool l.one_bucket;
        bounded = λ j. ground (arith, lookup-insert key j (fd ∷ fds) t.idle_pool, l.bounded j);
        balance = λ x. omega (arith, l.balance x, count-insert x key (fd ∷ fds) t.idle_pool);
      })
    ]

exchange_on-IsLedger :
    (sent : Expected (Unit {0}) RpcError) (got : Expected Bytes RpcError) (endpoint : Endpoint)
    (fd : ℕ) (t : Transport)
    → IsLedger t (fd ∷ [])
    → IsLedger (exchange_on sent got endpoint fd t).1 []
unfolding exchange_on
exchange_on-IsLedger (unexpected e) got endpoint fd t l = close_socket-IsLedger fd t l
exchange_on-IsLedger (value u) (unexpected e) endpoint fd t l = close_socket-IsLedger fd t l
exchange_on-IsLedger (value u) (value f) endpoint fd t l =
    return_connection-IsLedger endpoint fd t l

after_borrow-IsLedger :
    (connection : Expected ℕ RpcError) (endpoint : Endpoint) (frame : Bytes)
    (steps : RoundTripSteps) (t : Transport)
    → IsLedger t (handed connection)
    → IsLedger (after_borrow connection endpoint frame steps t).1 []
unfolding after_borrow
after_borrow-IsLedger (unexpected e) endpoint frame steps t l = l
after_borrow-IsLedger (value fd) endpoint frame steps t l =
    exchange_on-IsLedger (send_all frame 0 steps.sends).result (receive_frame steps.recvs).result
      endpoint fd t l

-- If the account of the descriptors is in balance, a round trip, however it ends, leaves every
-- connection that was ever opened either closed or idle, once for each time that it was opened,
-- and no endpoint with more than eight idle ones.
pub round_trip-IsLedger :
    (endpoint : Endpoint) (frame : Bytes) (steps : RoundTripSteps) (t : Transport)
    → IsLedger t []
    → IsLedger (round_trip endpoint frame steps t).1 []
unfolding round_trip
round_trip-IsLedger endpoint frame steps t l =
    after_borrow-IsLedger (borrow_connection endpoint steps t).0 endpoint frame steps
      (borrow_connection endpoint steps t).1 (borrow_connection-IsLedger endpoint steps t l)

-- After the destructor every connection was closed as often as it was opened.
pub count-destroy :
    (fd : ℕ) (t : Transport)
    → IsLedger t []
    → count fd (destroy t).closed ≡ count fd (destroy t).opened
unfolding destroy
count-destroy fd t l = omega (arith, l.balance fd, count-append fd t.closed (all_idle t.idle_pool))
