-- ===== src/ConnectionManager/State.antt =====
-- src/connection_manager.cc: the state of the connection manager, and the closing of descriptors.
use hxrpc.Common.{
  ℕ, ◌≡◌, Bool, true, false, List, [], ◌∷◌, ◌++◌, Option, none, some, Bytes, if◌then◌else◌, ◌==◌,
  lookup, insert, erase, nat_eq, Option-cases, inl, inr, arith, lookup-erase_self, lookup-erase,
  ==_iff, ◌⊎◌, ◌≢◌,
}
use hxrpc.Reactor.{Reactor, update, remove}

pub record ConnectionState : Type 0 where
  pub input_buffer : Bytes
  pub output_buffer : Bytes
  pub bytes_sent : ℕ

-- `ConnectionState{}`
abbrev pub empty_state : ConnectionState
empty_state = record { input_buffer = []; output_buffer = []; bytes_sent = 0 }

-- The four callbacks that the manager registers, each a λ over `this`.
pub data Callback : Type 0 where
  accept_loop_callback readable_callback writable_callback close_callback : Callback

-- `written n` is the number of bytes that the kernel is ready to take, `received []` the end of
-- the stream; EAGAIN and EWOULDBLOCK are `would_block`, EINTR is `interrupted`.
pub data SendResult : Type 0 where
  written : ℕ → SendResult
  interrupted would_block failed : SendResult

pub data RecvResult : Type 0 where
  received : Bytes → RecvResult
  interrupted would_block failed : RecvResult

-- `accepted fd b`: whether SetNonBlocking succeeds on the new descriptor.
pub data AcceptResult : Type 0 where
  accepted : ℕ → Bool → AcceptResult
  interrupted would_block failed : AcceptResult

pub record Manager : Type 0 where
  pub listen_fd : Option ℕ
  pub connections : List (ℕ × ConnectionState)
  pub reactor : Reactor Callback
  pub sends : List SendResult
  pub recvs : List RecvResult
  pub accepts : List AcceptResult
  -- descriptors passed to ::close, and bytes taken by ::send for a descriptor, both oldest first
  pub closed : List ℕ
  pub wire : List (ℕ × Bytes)

-- `connection_fd == listen_fd_`, where -1 is no descriptor.
abbrev pub is_listener : Option ℕ → ℕ → Bool
is_listener none fd = false
is_listener (some l) fd = l == fd

-- `connections_.find(fd)`
abbrev pub find : ℕ → Manager → Option ConnectionState
find fd m = lookup fd m.connections

abbrev pub put : ℕ → ConnectionState → Manager → Manager
put fd st m = record m { connections = insert fd st m.connections }

-- ConnectionManager::UpdateInterest
unfoldable pub update_interest : ℕ → Bool → Manager → Manager
update_interest fd want_write m = record m {
  reactor = update m.reactor fd (record { reads = true; writes = want_write });
}

close_connection : Option ConnectionState → ℕ → Manager → Manager
close_connection none fd m = m
close_connection (some st) fd m = record m {
  reactor = remove m.reactor fd;
  closed = m.closed ++ fd ∷ [];
  connections = erase fd m.connections;
}

-- ConnectionManager::Close
unfoldable pub close : ℕ → Manager → Manager
unfolding close_connection
close fd m =
    if is_listener m.listen_fd fd
    then record m { reactor = remove m.reactor fd; closed = m.closed ++ fd ∷ []; listen_fd = none }
    else close_connection (find fd m) fd m

-- The destructor: every connection, then the listener.
close_all : List (ℕ × ConnectionState) → List ℕ
close_all [] = []
close_all ((fd, st) ∷ cs) = fd ∷ close_all cs

close_listener : Option ℕ → List ℕ
close_listener none = []
close_listener (some fd) = fd ∷ []

unfoldable pub destroy : Manager → Manager
unfolding close_all close_listener
destroy m = record m {
  closed = m.closed ++ (close_all m.connections ++ close_listener m.listen_fd);
}

-- Closing a descriptor that is no listener leaves it no connection.
pub find-close_self :
    (fd : ℕ) (m : Manager) → is_listener m.listen_fd fd ≡ false → find fd (close fd m) ≡ none
unfolding close
find-close_self fd m l = elim (Option-cases (find fd m)) [
  | inl e ↦ ground (arith, lookup-erase_self fd m.connections)
  | inr (st, e) ↦ ground (arith, lookup-erase_self fd m.connections)
]

-- Closing the listener, or another descriptor, changes no connection of this one.
pub find-close :
    (fd j : ℕ) (m : Manager)
    → (is_listener m.listen_fd fd ≡ true) ⊎ (fd ≢ j)
    → find j (close fd m) ≡ find j m
unfolding close
find-close fd j m (inl l) = ground arith
find-close fd j m (inr ne) = ground (arith, lookup-erase fd j m.connections, ==_iff fd j)

pub wire-close : (fd : ℕ) (m : Manager) → (close fd m).wire ≡ m.wire
unfolding close
wire-close fd m = ground arith
