-- ===== src/Examples/Threads.antt =====
-- Interleavings: of the coroutine runtime, and of the logger.
use hxrpc.AsyncRuntime.Cancelled.{resumed_never}
use hxrpc.AsyncRuntime.Loop.Resuming.{Settled, resumed_in_time}
use hxrpc.AsyncRuntime.Loop.{polled, run_round}
use hxrpc.AsyncRuntime.Once.{resumed_once, times}
use hxrpc.AsyncRuntime.{
  Runtime, started, enqueue, take_pending, register_next, ready, resume_ready, set_cancelled, Runs,
  end, next, enqueues, takes_pending, registers, is_ready, resumes,
}
use hxrpc.Common.{◌≤◌, ◌≡◌, refl, inl, true, false, arith, List, [], ◌∷◌, none, Bytes, codes}
use hxrpc.Logger.Order.{err-Logs}
use hxrpc.Logger.{
  LogEntry, LoggerImpl, write, take_batch, write_next, stop, has_ended, Logs, writes, takes, prints,
  stops, write_unlocked,
}
use hxrpc.Logger
use hxrpc.Settings.Parse.{LogLevel}

-- Descriptor 7 is waited for, registered and ready.
abbrev waiting : Runtime
waiting = ready 1 (register_next true (take_pending (enqueue 7 100 started)))

waiting-Runs : Runs started waiting
waiting-Runs =
    next (enqueues 7 100 (omega arith))
      (next takes_pending (next (registers true) (next (is_ready 1) end)))

resumed_run : Runs started (resume_ready waiting)
resumed_run =
    next (enqueues 7 100 (omega arith))
      (next takes_pending (next (registers true) (next (is_ready 1) (next resumes end))))

resumed_once_example : times 1 (resume_ready waiting).resumed ≤ 1
resumed_once_example = resumed_once resumed_run 1

-- The awaiter is destroyed before the resumption.
cancelled_run : Runs (set_cancelled 1 waiting) (resume_ready (set_cancelled 1 waiting))
cancelled_run = next resumes end

resumed_never_example :
    times 1 (resume_ready (set_cancelled 1 waiting)).resumed
    ≡ times 1 (set_cancelled 1 waiting).resumed
unfolding set_cancelled
resumed_never_example = resumed_never 1 cancelled_run refl

-- A wait for descriptor 7 with the deadline 100 is registered; the next round's clock is at 150.
abbrev enqueued : Runtime
enqueued = enqueue 7 100 started

abbrev registered : Runtime
registered = register_next true (take_pending enqueued)

resumed_in_time_example :
    Settled 1 (run_round (record { oks = []; poll = polled []; now = 150 }) registered)
unfolding enqueue take_pending register_next
resumed_in_time_example =
    resumed_in_time (record { token = 1; fd = 7; deadline = 100 })
      (next (enqueues 7 100 (omega arith)) end) (inl refl)
      (next takes_pending (next (registers true) end)) refl refl refl [] [] 150 (omega arith)

abbrev format_line : LogEntry → Bytes
format_line e = e.message

abbrev entry : LogLevel → Bytes → LogEntry
entry level message = record { level = level; timestamp = 0; message = message }

abbrev logger : LoggerImpl
logger = record {
  options = record {
    async_enabled = true;
    stderr_enabled = true;
    file_path = [];
    min_level = LogLevel.warn;
  };
  queue = [];
  batch = [];
  stopping = false;
  file = none;
  err = [];
}

abbrev entries : List LogEntry
entries =
    entry LogLevel.error (codes "one")
    ∷ entry LogLevel.info (codes "two")
    ∷ entry LogLevel.warn (codes "three")
    ∷ []

-- A write comes between the taking of a batch and its printing.
logger-Logs :
    (m : LoggerImpl) × Logs format_line logger entries m
    × (has_ended m ≡ true)
    × (m.err ≡ codes "one" ∷ codes "three" ∷ [])
unfolding write take_batch write_next write_unlocked stop has_ended
logger-Logs = (
  _,
  writes _ (takes (writes _ (writes _ (prints (stops (takes (prints Logger.end))))))),
  refl,
  refl,
)

err-Logs_example : logger-Logs.0.err ≡ codes "one" ∷ codes "three" ∷ []
err-Logs_example = err-Logs format_line logger-Logs.1 (refl, refl) logger-Logs.2
