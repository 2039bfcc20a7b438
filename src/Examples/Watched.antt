-- ===== src/Examples/Watched.antt =====
-- Clients of ZooKeeper that start, and a watch that fires.
use hxrpc.Common.{◌≡◌, refl, true, false, none, codes, arith}
use hxrpc.Discovery.Sessions.Laws.{start_alone, start_shared}
use hxrpc.Discovery.Sessions.{
  Sessions, no_sessions, returned, waiting, failed, session_event, connected_state, child_event,
  reset_flag, init, global_watcher, wake, resets, inits, wakes, connect, connects, is_connection,
  Runs, begin, then_does,
}
use hxrpc.Discovery.Watches.Laws.{child_watcher_calls}
use hxrpc.Discovery.Watches.{
  Watches, no_watches, keep_watch, child_watcher, calls, watches, Runs as Watching,
  begin as begin_watch, then_does as then_watch,
}

abbrev started : Sessions
started = wake 1 (
    global_watcher session_event connected_state
      (connect 1 (init true 1 (reset_flag 1 no_sessions))))

started-Runs : Runs started
unfolding reset_flag init global_watcher wake is_connection
started-Runs =
    then_does
      (then_does (then_does (then_does begin (resets 1 refl)) (inits true 1 refl)) (connects 1 tt))
      (wakes 1 refl)

start_alone_example : started.connected 1 ≡ true
unfolding reset_flag init global_watcher wake is_connection
start_alone_example = start_alone 1 started-Runs (λ j ne. ground arith) refl

start_shared_example :
    ((s : Sessions) × Runs s × (s.phase 1 ≡ returned) × (s.connected 1 ≡ false))
    × ((s : Sessions) × Runs s
        × (s.phase 1 ≡ waiting)
        × (s.connected 1 ≡ true)
        × (s.phase 2 ≡ failed)
        × (wake 1 s ≡ s))
start_shared_example = start_shared 1 2 (omega arith)

abbrev watched : Watches
watched = keep_watch true (codes "/Echo/say") (keep_watch false (codes "/Echo/say") no_watches)

watched-Watching : Watching watched
unfolding keep_watch
watched-Watching =
    then_watch (then_watch begin_watch (watches false (codes "/Echo/say") refl))
      (watches true (codes "/Echo/say") refl)

child_watcher_calls_example : child_watcher child_event none 2 watched ≡ calls (codes "/Echo/say")
unfolding keep_watch
child_watcher_calls_example =
    child_watcher_calls child_event none 2 (codes "/Echo/say") watched-Watching refl
