-- ===== src/Examples/Parts.antt =====
-- The parts of a call, one by one: dispatcher, server, client, message pool, registry and reactor.
use hxrpc.Common.{
  ◌≡◌, ◌↔◌, refl, true, false, arith, [], none, some, codes, lookup, insert, bytes_eq, nat_eq, same,
}
use hxrpc.Dispatcher.Laws.{KeepsTypes, answer, dispatch_frame-answer}
use hxrpc.Dispatcher.{dispatch_frame}
use hxrpc.Examples.Calls.{frame_for, request}
use hxrpc.Examples.Setup.{Message, messages, messages-IsMessageApi, server, echo}
use hxrpc.Examples.Streams.{manager}
use hxrpc.MessagePool.Laws.{
  IsValid, IsFresh, empty_pool-IsValid, acquire-IsFresh, release_handle-IsValid,
}
use hxrpc.MessagePool.{MessagePool, PooledMessage, empty_pool, acquire, release, release_handle}
use hxrpc.Reactor.Dispatch.{dispatch_dangling}
use hxrpc.Reactor.{
  Reactor, Handler, Event, Host, dangling, fresh, add, remove, dispatch, run_callback,
}
use hxrpc.Registry.Laws.{elem, lookup-register_service}
use hxrpc.Registry.{register_service, method_key}
use hxrpc.Server.Laws.{reply, on_frame-reply, send_if}
use hxrpc.Server.{on_frame}

pub server-KeepsTypes : KeepsTypes server
server-KeepsTypes = record {
  parsed_type = λ m p b e. cc;
  request_type = λ s n c q r. refl;
  response_type = λ s n c q r. refl;
}

abbrev pool : MessagePool Message
pool = empty_pool 4

dispatch_frame-answer_example :
    ((dispatch_frame server (frame_for (codes "say")) pool).0
      ≡ answer server (frame_for (codes "say")))
    × IsValid messages (dispatch_frame server (frame_for (codes "say")) pool).1
dispatch_frame-answer_example =
    dispatch_frame-answer server messages-IsMessageApi server-KeepsTypes (frame_for (codes "say"))
      pool (empty_pool-IsValid messages 4)

on_frame-reply_example :
    ((on_frame server 5 (frame_for (codes "say")) (manager [], pool)).0
      ≡ send_if 5 (reply server (frame_for (codes "say"))) (manager []))
    × IsValid messages (on_frame server 5 (frame_for (codes "say")) (manager [], pool)).1
on_frame-reply_example =
    on_frame-reply server messages-IsMessageApi server-KeepsTypes 5 (frame_for (codes "say"))
      (manager []) pool (empty_pool-IsValid messages 4)

acquire-IsFresh_example :
    IsFresh messages messages-IsMessageApi request (acquire messages request pool).0
    × IsValid messages (acquire messages request pool).1
acquire-IsFresh_example =
    acquire-IsFresh messages messages-IsMessageApi request pool (empty_pool-IsValid messages 4)

-- The handle of a message that was written to.
abbrev handle : PooledMessage Message
handle = record { attached = true; key = codes "Request"; message = some request }

release_handle-IsValid_example :
    (release_handle messages handle pool ≡ (
      record { attached = false; key = []; message = none },
      release (codes "Request") (codes "Request", []) pool,
    ))
    × IsValid messages (release (codes "Request") (codes "Request", []) pool)
    × (release_handle messages
          (release_handle messages handle pool).0
          (release_handle messages handle pool).1
        ≡ release_handle messages handle pool)
release_handle-IsValid_example =
    release_handle-IsValid messages messages-IsMessageApi handle request pool
      (empty_pool-IsValid messages 4) refl refl refl

lookup-register_service_example :
    lookup (method_key (codes "Echo") (codes "shout")) (register_service echo []) ≡ none
unfolding codes elem same lookup
lookup-register_service_example =
    lookup-register_service echo (codes "Echo") (codes "shout") [] (ground arith) (ground arith)

-- A host whose readable callback removes its descriptor, as HandleReadable does at the end of a stream.
abbrev host : Host (Reactor (Unit {0})) (Unit {0})
host = record {
  reactor = λ r. r;
  set_running = λ b r. record r { running = b };
  call = λ c fd r. remove r fd;
}

abbrev handler : Handler (Unit {0})
handler = record {
  events = record { reads = true; writes = true };
  on_readable = some tt;
  on_writable = some tt;
  on_error = some tt;
}

abbrev event : Event
event = record { fd = 7; failed = false; readable = true; writable = true }

dispatch_dangling_example :
    (dispatch host event (add fresh 7 handler)
      ≡ dangling (run_callback host (some tt) 7 (add fresh 7 handler)))
    ↔ ((false ≡ false)
        × (true ≡ true)
        × (true ≡ true)
        × (lookup 7 (run_callback host (some tt) 7 (add fresh 7 handler)).handlers ≡ none))
unfolding add insert lookup
dispatch_dangling_example = dispatch_dangling host event (add fresh 7 handler) handler refl
