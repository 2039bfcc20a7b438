-- ===== src/Reactor.antt =====
-- src/reactor.cc and src/include/reactor.h: the epoll dispatcher of the server.
-- A callback is a value of a type `C`; `Option C` is a std::function, which may be empty. The
-- results of epoll_ctl are ignored by the source, so the calls are recorded, oldest first. An event
-- mask is its three tested bits. `epoll_wait` is a script of its results.
pub mod Dispatch
use hxrpc.Common.{
  ℕ, Bool, true, false, ◌&&◌, Option, none, some, List, [], ◌∷◌, ◌++◌, if◌then◌else◌, lookup,
  insert, erase, nat_eq,
}

-- EPOLLIN and EPOLLOUT of an interest mask.
pub record Interest : Type 0 where
  pub reads : Bool
  pub writes : Bool

pub data EpollCall : Type 0 where
  ctl_add ctl_mod : ℕ → Interest → EpollCall
  ctl_del : ℕ → EpollCall

pub record Handler (C : Type 0) : Type 0 where
  pub events : Interest
  pub on_readable : Option C
  pub on_writable : Option C
  pub on_error : Option C

pub record Reactor (C : Type 0) : Type 0 where
  pub running : Bool
  pub handlers : List (ℕ × Handler C)
  pub calls : List EpollCall

module _ {C : Type 0} where
  -- Reactor::Reactor
  abbrev pub fresh : Reactor C
  fresh = record { running = false; handlers = []; calls = [] }

  -- Reactor::Add
  unfoldable pub add : Reactor C → ℕ → Handler C → Reactor C
  add r fd h = record r {
    handlers = insert fd h r.handlers;
    calls = r.calls ++ ctl_add fd h.events ∷ [];
  }

  -- Reactor::Update
  unfoldable pub update : Reactor C → ℕ → Interest → Reactor C
  update r fd events = elim (lookup fd r.handlers) [
    | none ↦ r
    | some h ↦ record r {
      handlers = insert fd (record h { events = events }) r.handlers;
      calls = r.calls ++ ctl_mod fd events ∷ [];
    }
  ]

  -- Reactor::Remove
  unfoldable pub remove : Reactor C → ℕ → Reactor C
  remove r fd = record r { handlers = erase fd r.handlers; calls = r.calls ++ ctl_del fd ∷ [] }

  -- Reactor::Stop
  unfoldable pub stop : Reactor C → Reactor C
  stop r = record r { running = false }

-- One element of events_: EPOLLERR or EPOLLHUP, EPOLLIN, EPOLLOUT.
pub record Event : Type 0 where
  pub fd : ℕ
  pub failed : Bool
  pub readable : Bool
  pub writable : Bool

pub data WaitResult : Type 0 where
  ready : List Event → WaitResult
  interrupted failure : WaitResult

-- How a piece of the loop ends. `dangling` is a read through the iterator of an erased handler,
-- which the source does not define.
pub data Outcome (S : Type 0) : Type 0 where
  ran : S → Outcome S
  dangling : S → Outcome S

-- The state around the reactor: where the reactor stands in it, and what a callback does.
pub record Host (S C : Type 0) : Type 0 where
  pub reactor : S → Reactor C
  pub set_running : Bool → S → S
  pub call : C → ℕ → S → S

module _ {S C : Type 0} (host : Host S C) where
  open host use {reactor, set_running, call}

  unfoldable pub run_callback : Option C → ℕ → S → S
  run_callback none fd s = s
  run_callback (some c) fd s = call c fd s

  -- `if (EPOLLOUT && handler_it->second.on_writable)`, after the readable callback. The handler
  -- is read again, since the callback may have erased or changed it. A callback that erases the
  -- descriptor and adds it again makes the iterator invalid too; here it is then the new handler's.
  -- No callback of the program does that.
  after_readable : Bool → ℕ → S → Outcome S
  unfolding run_callback
  after_readable false fd s = ran s
  after_readable true fd s = elim (lookup fd (reactor s).handlers) [
    | none ↦ dangling s
    | some h ↦ ran (run_callback h.on_writable fd s)
  ]

  -- The body of the loop over the ready events.
  unfoldable pub dispatch : Event → S → Outcome S
  unfolding run_callback after_readable
  dispatch e s = elim (lookup e.fd (reactor s).handlers) [
    | none ↦ ran s
    | some h ↦
        if e.failed
        then ran (run_callback h.on_error e.fd s)
        else after_readable e.writable e.fd
            (if e.readable then run_callback h.on_readable e.fd s else s)
  ]

  unfoldable pub dispatch_all : List Event → S → Outcome S
  dispatch_all [] s = ran s
  dispatch_all (e ∷ es) s = elim (dispatch e s) [
    | ran t ↦ dispatch_all es t
    | dangling t ↦ dangling t
  ]

  -- `while (running_)`, over the results that epoll_wait gives in turn; the run so far, where the
  -- script ends.
  unfoldable pub poll : List WaitResult → S → Outcome S
  unfolding dispatch_all
  poll [] s = ran s
  poll (failure ∷ ws) s = ran s
  poll (interrupted ∷ ws) s = let rest = poll ws s in if (reactor s).running then rest else ran s
  poll (ready es ∷ ws) s =
      let next : Outcome S = elim (dispatch_all es s) [
        | ran t ↦ poll ws t
        | dangling t ↦ dangling t
      ] in
      if (reactor s).running then next else ran s

  -- Reactor::Loop
  unfoldable pub loop : List WaitResult → S → Outcome S
  unfolding poll
  loop ws s = poll ws (set_running true s)
