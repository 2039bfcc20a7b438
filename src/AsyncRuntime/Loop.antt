-- ===== src/AsyncRuntime/Loop.antt =====
-- src/async_runtime.cc: the loop thread, composed of the operations of AsyncRuntime, with nothing of
-- another thread between them. What the system calls give is an argument.
pub mod Steps
pub mod Places
pub mod Kept
pub mod Expiry
pub mod Resuming
use hxrpc.Common.{
  ℕ, Bool, true, false, ◌&&◌, List, [], ◌∷◌, Option, none, some, ◌==◌, if◌then◌else◌,
}
use hxrpc.AsyncRuntime.{
  Wait, Runtime, started, take_pending, register_next, ready, expire_timed_out, resume_ready,
}

-- Whether epoll_ctl takes each descriptor in turn; it does where the list has ended.
abbrev first_ok : List Bool → Bool
first_ok [] = true
first_ok (ok ∷ oks) = ok

abbrev other_oks : List Bool → List Bool
other_oks [] = []
other_oks (ok ∷ oks) = oks

-- One round of the loop of RegisterPending. A refused descriptor is resumed at once.
unfoldable pub register_one : Bool → Runtime → Runtime
register_one ok r = if ok then register_next true r else resume_ready (register_next false r)

-- `for (auto& registration : pending_items)`
unfoldable pub register_all : List Wait → List Bool → Runtime → Runtime
register_all [] oks r = r
register_all (w ∷ ws) oks r = register_all ws (other_oks oks) (register_one (first_ok oks) r)

-- AsyncRuntime::RegisterPending
unfoldable pub register_pending : List Bool → Runtime → Runtime
register_pending oks r = let r' = take_pending r in register_all r'.moving oks r'

-- What epoll_wait gives: an error, EINTR among them, or the tokens of the events. With an event of
-- the wake descriptor, which has the token 0, come the results of epoll_ctl for RegisterPending.
pub data Polled : Type 0 where
  poll_failed : Polled
  polled : List (ℕ × List Bool) → Polled

-- The body of the loop over the events.
unfoldable pub handle_event : ℕ → List Bool → Runtime → Runtime
handle_event token oks r =
    if token == 0 then register_pending oks r else resume_ready (ready token r)

unfoldable pub handle_events : List (ℕ × List Bool) → Runtime → Runtime
handle_events [] r = r
handle_events ((token, oks) ∷ events) r = handle_events events (handle_event token oks r)

-- `for (auto& registration : expired)`
unfoldable pub resume_all : List (Wait × Bool) → Runtime → Runtime
resume_all [] r = r
resume_all (x ∷ xs) r = resume_all xs (resume_ready r)

-- AsyncRuntime::ExpireTimedOut
unfoldable pub expire : ℕ → Runtime → Runtime
expire now r = let r' = expire_timed_out now r in resume_all r'.resuming r'

pub record Round : Type 0 where
  pub oks : List Bool
  pub poll : Polled
  pub now : ℕ

after_poll : Polled → ℕ → Runtime → Runtime
after_poll poll_failed now r = r
after_poll (polled events) now r = expire now (handle_events events r)

-- The body of `while (running_)`. What a resumed coroutine does before it suspends again, such as to
-- enqueue its next wait, is not part of the round: it is a step of another thread.
unfoldable pub run_round : Round → Runtime → Runtime
unfolding after_poll
run_round x r = after_poll x.poll x.now (register_pending x.oks r)

-- AsyncRuntime::Run, for the rounds until `running_` is cleared.
unfoldable pub run : List Round → Runtime → Runtime
run [] r = r
run (x ∷ xs) r = run xs (run_round x r)

-- AsyncRuntime::AsyncRuntime: whether epoll_create1, eventfd and epoll_ctl succeed. Only then does
-- the loop thread start.
unfoldable pub starts_loop : Bool → Bool → Bool → Bool
starts_loop epoll_made wake_made registered = epoll_made && wake_made && registered
