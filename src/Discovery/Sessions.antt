-- ===== src/Discovery/Sessions.antt =====
-- src/zookeeperutil.cc: the Start of several clients in one process. All of them wait under the
-- one flag g_connected, which GlobalWatcher sets; each operation is what one thread does under
-- g_connection_mutex.
pub mod Laws
use hxrpc.Common.{ℕ, ◌≡◌, Bool, true, false, ◌==◌, if◌then◌else◌}

-- Where the Start of a client stands.
pub data Phase : Type 0 where
  unstarted : Phase
  opening : Phase
  waiting : Phase
  failed : Phase
  returned : Phase

-- The event types and session states that the watchers tell apart.
pub data EventType : Type 0 where
  session_event child_event created_event deleted_event other_event : EventType

pub data SessionState : Type 0 where
  connected_state other_state : SessionState

-- `connected` tells of each client whether its own session was ever connected.
pub record Sessions : Type 0 where
  pub g_connected : Bool
  pub phase : ℕ → Phase
  pub connected : ℕ → Bool

abbrev pub set {ℓ} : {A : Type ℓ} → ℕ → A → (ℕ → A) → ℕ → A
set i a f j = if i == j then a else f j

abbrev pub no_sessions : Sessions
no_sessions = record { g_connected = false; phase = λ i. unstarted; connected = λ i. false }

-- The first block of Start.
unfoldable pub reset_flag : ℕ → Sessions → Sessions
reset_flag i s = record s { g_connected = false; phase = set i opening s.phase }

-- zookeeper_init, on whether it gives a handle.
unfoldable pub init : Bool → ℕ → Sessions → Sessions
init ok i s = record s { phase = set i (if ok then waiting else failed) s.phase }

-- `type == ZOO_SESSION_EVENT && state == ZOO_CONNECTED_STATE`
unfoldable pub is_connection : EventType → SessionState → Bool
is_connection session_event connected_state = true
is_connection _ _ = false

-- GlobalWatcher
unfoldable pub global_watcher : EventType → SessionState → Sessions → Sessions
unfolding is_connection
global_watcher type state s =
    if is_connection type state then record s { g_connected = true } else s

-- The library's side: the session of a client is connected.
abbrev pub connect : ℕ → Sessions → Sessions
connect i s = record s { connected = set i true s.connected }

-- The wait of Start under its predicate, for one wakeup.
unfoldable pub wake : ℕ → Sessions → Sessions
wake i s = if s.g_connected then record s { phase = set i returned s.phase } else s

-- A handle exists, or zookeeper_init is making it and may have started its threads.
abbrev pub HasSession : Phase → Type 0
HasSession unstarted = ⊥
HasSession opening = Unit {0}
HasSession waiting = Unit {0}
HasSession failed = ⊥
HasSession returned = Unit {0}

pub data Step (s : Sessions) : Sessions → Type 0 where
  resets : (i : ℕ) → s.phase i ≡ unstarted → Step s (reset_flag i s)
  inits : (ok : Bool) (i : ℕ) → s.phase i ≡ opening → Step s (init ok i s)
  connects :
      (i : ℕ)
      → HasSession (s.phase i)
      → Step s (global_watcher session_event connected_state (connect i s))
  notifies :
      (type : EventType) (state : SessionState) (i : ℕ)
      → HasSession (s.phase i)
      → ¬ ((type ≡ session_event) × (state ≡ connected_state))
      → Step s (global_watcher type state s)
  wakes : (i : ℕ) → s.phase i ≡ waiting → Step s (wake i s)

pub data Runs : Sessions → Type 0 where
  begin : Runs no_sessions
  then_does : {s t : Sessions} → Runs s → Step s t → Runs t
