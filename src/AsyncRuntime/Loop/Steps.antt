-- ===== src/AsyncRuntime/Loop/Steps.antt =====
-- src/async_runtime.cc: the loop thread takes steps of the runtime.
use hxrpc.Common.{ℕ, Bool, true, false, List, [], ◌∷◌, ◌==◌, Bool-cases, inl, inr}
use hxrpc.AsyncRuntime.Loop.{
  register_one, register_all, register_pending, Polled, poll_failed, polled, handle_event,
  handle_events, resume_all, expire, Round, after_poll, run_round, run,
}
use hxrpc.AsyncRuntime.{
  Wait, Runtime, resume_ready, takes_pending, registers, is_ready, expires, resumes, Runs, end,
  next,
}

Runs-append : {r s t : Runtime} → Runs r s → Runs s t → Runs r t
Runs-append end b = b
Runs-append (next s a) b = next s (Runs-append a b)

pub register_one-Runs : (ok : Bool) (r : Runtime) → Runs r (register_one ok r)
unfolding register_one
register_one-Runs true r = next (registers true) end
register_one-Runs false r = next (registers false) (next resumes end)

register_all-Runs :
    (ws : List Wait) (oks : List Bool) (r : Runtime) → Runs r (register_all ws oks r)
unfolding register_all
register_all-Runs [] oks r = end
register_all-Runs (w ∷ ws) oks r = Runs-append (register_one-Runs _ r) (register_all-Runs ws _ _)

pub register_pending-Runs : (oks : List Bool) (r : Runtime) → Runs r (register_pending oks r)
unfolding register_pending
register_pending-Runs oks r = next takes_pending (register_all-Runs _ oks _)

pub handle_event-Runs : (t : ℕ) (oks : List Bool) (r : Runtime) → Runs r (handle_event t oks r)
unfolding handle_event
handle_event-Runs t oks r = elim (Bool-cases (t == 0)) [
  | inl e ↦ rw e (register_pending-Runs oks r)
  | inr e ↦ rw e (next (is_ready t) (next resumes end))
]

handle_events-Runs : (es : List (ℕ × List Bool)) (r : Runtime) → Runs r (handle_events es r)
unfolding handle_events
handle_events-Runs [] r = end
handle_events-Runs ((t, oks) ∷ es) r =
    Runs-append (handle_event-Runs t oks r) (handle_events-Runs es (handle_event t oks r))

resume_all-Runs : (xs : List (Wait × Bool)) (r : Runtime) → Runs r (resume_all xs r)
unfolding resume_all
resume_all-Runs [] r = end
resume_all-Runs (x ∷ xs) r = next resumes (resume_all-Runs xs (resume_ready r))

expire-Runs : (now : ℕ) (r : Runtime) → Runs r (expire now r)
unfolding expire
expire-Runs now r = next (expires now) (resume_all-Runs _ _)

run_round-Runs : (x : Round) (r : Runtime) → Runs r (run_round x r)
unfolding run_round
run_round-Runs x r = Runs-append (register_pending-Runs x.oks r) (after x.poll)
  where
    after :
        (p : Polled)
        → Runs (register_pending x.oks r) (after_poll p x.now (register_pending x.oks r))
    after poll_failed = end
    after (polled es) = Runs-append (handle_events-Runs es _) (expire-Runs x.now _)

-- Whatever the system calls give, the loop thread of Run does nothing but steps of the runtime.
pub run-Runs : (xs : List Round) (r : Runtime) → Runs r (run xs r)
unfolding run
run-Runs [] r = end
run-Runs (x ∷ xs) r = Runs-append (run_round-Runs x r) (run-Runs xs (run_round x r))
