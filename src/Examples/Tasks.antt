-- ===== src/Examples/Tasks.antt =====
-- A task that is awaited while its body waits, and the objects that own its frame.
use hxrpc.Common.{ℕ, ◌<◌, ◌≡◌, false, ◌↔◌, refl, some, none, inl, inr}
use hxrpc.Task.Awaiting.Laws.{co_await_reads, co_await_early}
use hxrpc.Task.Awaiting.{
  running, suspended, System, called, pause, complete, mark, hand_over, check, suspend, Runs, call,
  next, pauses, checks, suspends, completes, marks, hands_over,
}
use hxrpc.Task.Ownership.Laws.{frames_owned}
use hxrpc.Task.Ownership.{
  Store, empty_store, live, start_coroutine, perform, starts, assigns, owned, set, task, unborn,
  Runs as Acts, begin, then_does,
}
use hxrpc.Task.{Outcome, returned, ended, finish, mark_done, await_suspend, await_resume}

abbrev Ints : Type 0
Ints = System ℕ ℕ

abbrev moved : ℕ → ℕ
moved n = 0

-- The body waits for its wait 0 when it is awaited.
abbrev awaited : Ints
awaited = check 1 2 moved (pause called)

-- It runs on, and that wait, which has not come, is cancelled.
abbrev early : Ints
early = record awaited {
  promise = record awaited.promise { continuation = some 2 };
  body = running;
  waiter = suspended;
  pending = set 0 false awaited.pending;
}

early-Runs : Runs 1 2 moved early
unfolding check suspend await_suspend
early-Runs = next (next (next call (pauses refl)) (checks refl)) (suspends refl refl)

co_await_early_example :
    (k : ℕ) × (k < early.next_wait) × (early.came k ≡ false) × (early.pending k ≡ false)
co_await_early_example = co_await_early early-Runs (inl refl)

-- The next wait of the body.
abbrev paused : Ints
paused = pause early

-- The body returns 7.
abbrev handed : Ints
handed = hand_over 1 2 moved (mark (complete (returned 7) early))

handed-Runs : Runs 1 2 moved handed
unfolding complete mark
handed-Runs =
    next (next (next early-Runs (completes (returned 7) refl)) (marks refl)) (hands_over refl)

co_await_reads_example :
    (x : Outcome ℕ ℕ) × (handed.outcome ≡ some x) × (ended (returned 7) ≡ ended x)
unfolding hand_over complete finish mark mark_done check await_suspend await_resume
co_await_reads_example = co_await_reads handed-Runs (ended (returned 7)) (inr refl)

-- Two coroutines; the task of the first is assigned the second's.
abbrev two : Store
two = record {
  objects = set 20 (some (task (some 2))) (set 10 (some (task (some 1))) (λ a. none));
  frames = set 2 live (set 1 live (λ h. unborn));
  next = 3;
}

two-Acts : Acts empty_store two
unfolding perform start_coroutine
two-Acts = then_does (then_does begin (starts 10) refl refl) (starts 20) refl refl

frames_owned_example :
    ((t : Store) × (perform (assigns 10 20) two ≡ some t))
    × ((h : ℕ)
        → (two.frames h ≡ live)
          ↔ ((a : ℕ) × ((b : ℕ) → (owned (two.objects b) ≡ some h) ↔ (a ≡ b))))
frames_owned_example = frames_owned two-Acts (assigns 10 20) (tt, tt)
