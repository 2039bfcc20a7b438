-- ===== src/Discovery/Watches.antt =====
-- src/zookeeperutil.cc: the contexts of the child watches of one client, from GetChildrenWatched
-- to the calls of ChildWatcher and to the end of the client. A context stands at an address.
pub mod Laws
use hxrpc.Common.{
  ℕ, suc, ◌≡◌, Bool, true, false, ◌||◌, List, [], ◌∷◌, ◌++◌, Option, none, some, Bytes, lookup,
  nat_eq, ◌==◌, if◌then◌else◌,
}
use hxrpc.Discovery.Sessions.{
  EventType, session_event, child_event, created_event, deleted_event, other_event, set,
}

-- `armed` is the library's part: the path under which it will call the context at an address.
pub record Watches : Type 0 where
  pub child_watches : List (ℕ × Bytes)
  pub armed : ℕ → Option Bytes
  -- no context was ever at an address from here on
  pub next : ℕ
  pub closed : Bool

abbrev pub no_watches : Watches
no_watches = record { child_watches = []; armed = λ a. none; next = 1; closed = false }

-- The context in GetChildrenWatched, on whether zoo_wget_children succeeds: then the library has
-- the watch, and the client keeps the context; otherwise neither does.
unfoldable pub keep_watch : Bool → Bytes → Watches → Watches
keep_watch true path w = record w {
  child_watches = w.child_watches ++ ((w.next, path) ∷ []);
  armed = set w.next (some path) w.armed;
  next = suc w.next;
}
keep_watch false path w = record w { next = suc w.next }

-- What a call of ChildWatcher does; `dangling` is a read through a context that is gone.
pub data Notice : Type 0 where
  ignored : Notice
  calls : Bytes → Notice
  dangling : Notice

abbrev pub is_change : EventType → Bool
is_change child_event = true
is_change created_event = true
is_change deleted_event = true
is_change session_event = false
is_change other_event = false

abbrev pub path_or : Option Bytes → Bytes → Bytes
path_or none own = own
path_or (some path) own = path

-- ChildWatcher, with the path that it is given, if any. The address is not null.
unfoldable pub child_watcher : EventType → Option Bytes → ℕ → Watches → Notice
child_watcher type path address w =
    if is_change type
    then (elim (lookup address w.child_watches) [
      | none ↦ dangling
      | some own ↦ calls (path_or path own)
    ])
    else ignored

-- The library's side of the call: a change uses the watch up, any other event does not.
unfoldable pub fire : EventType → ℕ → Watches → Watches
fire type address w = if is_change type then record w { armed = set address none w.armed } else w

-- ~ZkClient: zookeeper_close ends the calls, and then the contexts go.
unfoldable pub close_client : Watches → Watches
close_client w = record w { child_watches = []; armed = λ a. none; closed = true }

pub data Step (w : Watches) : Watches → Type 0 where
  watches : (ok : Bool) (path : Bytes) → w.closed ≡ false → Step w (keep_watch ok path w)
  fires :
      (type : EventType) (address : ℕ) (path : Bytes)
      → w.armed address ≡ some path
      → Step w (fire type address w)
  closes : w.closed ≡ false → Step w (close_client w)

pub data Runs : Watches → Type 0 where
  begin : Runs no_watches
  then_does : {w v : Watches} → Runs w → Step w v → Runs v
