-- ===== src/ConnectionManager/Accept.antt =====
-- src/connection_manager.cc: Listen and AcceptLoop.
use hxrpc.Common.{
  ℕ, ◌++◌, Bool, true, false, List, [], ◌∷◌, Option, none, some, if◌then◌else◌, nat_eq,
}
use hxrpc.ConnectionManager.State.{
  Manager, ConnectionState, empty_state, AcceptResult, accepted, Callback, accept_loop_callback,
  readable_callback, writable_callback, close_callback, find, put,
}
use hxrpc.Reactor.{Handler, add}

-- The outcome of each step of Listen: the socket, O_NONBLOCK, inet_pton, ::bind and ::listen.
pub record ListenSteps : Type 0 where
  pub socket : Option ℕ
  pub nonblocking : Bool
  pub address : Bool
  pub bound : Bool
  pub listening : Bool

abbrev listen_handler : Handler Callback
listen_handler = record {
  events = record { reads = true; writes = false };
  on_readable = some accept_loop_callback;
  on_writable = none;
  on_error = some close_callback;
}

abbrev connection_handler : Handler Callback
connection_handler = record {
  events = record { reads = true; writes = false };
  on_readable = some readable_callback;
  on_writable = some writable_callback;
  on_error = some close_callback;
}

abandon : ℕ → Manager → Manager × Bool
abandon fd m = (record m { listen_fd = none; closed = m.closed ++ fd ∷ [] }, false)

listen_on : ListenSteps → ℕ → Manager → Manager × Bool
unfolding abandon
listen_on steps fd m =
    if steps.nonblocking
    then (if steps.address
        then (if steps.bound
            then (if steps.listening
                then (
                  record m { listen_fd = some fd; reactor = add m.reactor fd listen_handler },
                  true,
                )
                else abandon fd m)
            else abandon fd m)
        else abandon fd m)
    else abandon fd m

-- ConnectionManager::Listen. The result of setsockopt is only logged.
unfoldable pub listen : ListenSteps → Manager → Manager × Bool
unfolding listen_on
listen steps m = elim steps.socket [
  | none ↦ (record m { listen_fd = none }, false)
  | some fd ↦ listen_on steps fd m
]

-- `connections_.emplace(fd, ConnectionState{})` keeps an entry that is there.
emplace : Option ConnectionState → ℕ → Manager → Manager
emplace none fd m = put fd empty_state m
emplace (some st) fd m = m

-- One accepted descriptor.
unfoldable pub accept_one : ℕ → Bool → Manager → Manager
unfolding emplace
accept_one fd nonblocking m =
    if nonblocking
    then (let m' = emplace (find fd m) fd m in
        record m' { reactor = add m'.reactor fd connection_handler })
    else record m { closed = m.closed ++ fd ∷ [] }

accept_all : List AcceptResult → Manager → Manager
accept_all [] m = record m { accepts = [] }
accept_all (accepted fd nonblocking ∷ rs) m = accept_all rs (accept_one fd nonblocking m)
accept_all (AcceptResult.interrupted ∷ rs) m = accept_all rs m
accept_all (AcceptResult.would_block ∷ rs) m = record m { accepts = rs }
accept_all (AcceptResult.failed ∷ rs) m = record m { accepts = rs }

-- ConnectionManager::AcceptLoop
unfoldable pub accept_loop : Manager → Manager
unfolding accept_all accept_one
accept_loop m = accept_all m.accepts m
