-- ===== src/Task/Awaiting.antt =====
-- src/include/task.h: one task and one coroutine that awaits it, in different threads. The body of
-- the task started with its call. It pauses at waits of its own for descriptors, each of which
-- resumes it once, when it comes, unless it was cancelled: when the body goes on from such a
-- co_await, the awaiter is destroyed, and cancels a wait that has not come (~FdAwaiter in
-- src/async_runtime.cc). `none` of an operation is the resumption of a coroutine where it is not
-- suspended for that, or for good, which C++ leaves undefined.
pub mod Invariant
pub mod Moves
pub mod Meetings
pub mod Laws
use hxrpc.Common.{
  ℕ, suc, ◌+◌, ◌≡◌, Bool, true, false, List, [], ◌∷◌, ◌++◌, Option, none, some, ◌==◌, if◌then◌else◌,
}
use hxrpc.Task.{
  Outcome, Promise, Read, fresh_promise, finish, mark_done, await_ready, await_suspend,
  await_resume, resumed_next,
}
use hxrpc.Task.Ownership.{set}

-- Where the body is: `finished` is before the critical section of FinalAwaiter::await_suspend,
-- `marked` between that and the reading of the continuation, `at_end` suspended for good.
pub data Body : Type 0 where
  running : Body
  waiting : ℕ → Body
  finished marked at_end : Body

-- Where the coroutine that awaits is: before its co_await, past an await_ready that said no,
-- suspended, or past await_resume, with or without a suspension before it.
pub data Waiter (A E : Type 0) : Type 0 where
  before unready suspended : Waiter A E
  reads resumes : Read A E → Waiter A E

pub record System (A E : Type 0) : Type 0 where
  pub promise : Promise A E
  pub body : Body
  pub waiter : Waiter A E
  -- the waits that are to come, those that have come, and the number of the next one
  pub pending : ℕ → Bool
  pub came : ℕ → Bool
  pub next_wait : ℕ
  -- how the body ended
  pub outcome : Option (Outcome A E)

module _ {A E : Type 0} where
  abbrev pub called : System A E
  called = record {
    promise = fresh_promise;
    body = running;
    waiter = before;
    pending = λ k. false;
    came = λ k. false;
    next_wait = 0;
    outcome = none;
  }

  -- The body suspends itself at a co_await of its own.
  abbrev pub pause : System A E → System A E
  pause s = record s {
    body = waiting s.next_wait;
    pending = set s.next_wait true s.pending;
    next_wait = suc s.next_wait;
  }

  resume_at : Body → ℕ → System A E → Option (System A E)
  resume_at (waiting j) k s =
      if j == k
      then some
          (record s { body = running; pending = set k false s.pending; came = set k true s.came })
      else none
  resume_at _ k s = none

  -- A wait of the body comes, and resumes it.
  unfoldable pub wake : ℕ → System A E → Option (System A E)
  unfolding resume_at
  wake k s = resume_at s.body k s

  -- The body ends.
  unfoldable pub complete : Outcome A E → System A E → System A E
  unfolding finish
  complete o s = record s { promise = finish o s.promise; body = finished; outcome = some o }

  unfoldable pub mark : System A E → System A E
  unfolding mark_done
  mark s = record s { promise = mark_done s.promise; body = marked }

  -- Control goes to the body where it waits: it goes on, which cancels its wait.
  transfer : Body → System A E → Option (System A E)
  transfer (waiting k) s = some (record s { body = running; pending = set k false s.pending })
  transfer _ s = none

  module _ (handle continuation : ℕ) (moved : A → A) where
    -- The continuation is read and runs, with await_resume first.
    unfoldable pub hand_over : System A E → System A E
    unfolding await_resume
    hand_over s = elim (resumed_next s.promise) [
      | none ↦ record s { body = at_end }
      | some c ↦
          let (r, p) = await_resume moved s.promise in
          record s { promise = p; body = at_end; waiter = resumes r }
    ]

    -- The coroutine that awaits asks await_ready.
    unfoldable pub check : System A E → System A E
    unfolding await_resume
    check s =
        if await_ready s.promise
        then (let (r, p) = await_resume moved s.promise in
            record s { promise = p; waiter = reads r })
        else record s { waiter = unready }

    -- It suspends, and control goes to the handle that await_suspend returned, that of the body.
    unfoldable pub suspend : System A E → Option (System A E)
    unfolding await_suspend transfer
    suspend s =
        let (p, next) = await_suspend handle continuation s.promise in
        transfer s.body (record s { promise = p; waiter = suspended })

    -- The next operation of either thread, or of what the body waits for.
    pub data Step (s : System A E) : System A E → Type 0 where
      pauses : s.body ≡ running → Step s (pause s)
      wakes : {t : System A E} (k : ℕ) → s.pending k ≡ true → wake k s ≡ some t → Step s t
      completes : (o : Outcome A E) → s.body ≡ running → Step s (complete o s)
      marks : s.body ≡ finished → Step s (mark s)
      hands_over : s.body ≡ marked → Step s (hand_over s)
      checks : s.waiter ≡ before → Step s (check s)
      suspends : {t : System A E} → s.waiter ≡ unready → suspend s ≡ some t → Step s t

    pub data Runs : System A E → Type 0 where
      call : Runs called
      next : {s t : System A E} → Runs s → Step s t → Runs t
