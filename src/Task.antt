-- ===== src/Task.antt =====
-- src/include/task.h: the promise of a coroutine and the three ways to read its result. The frame of
-- a coroutine is what its promise stands in; a handle is a number, and 0 is never one. `none` for an
-- `Option` of the whole result is a read that C++ leaves undefined.
pub mod Ownership
pub mod Reading
pub mod Awaiting
use hxrpc.Common.{ℕ, Bool, true, false, Option, none, some, if◌then◌else◌}

-- How the body of a coroutine ends: by co_return, or by an exception.
pub data Outcome (A E : Type 0) : Type 0 where
  returned : A → Outcome A E
  threw : E → Outcome A E

-- Task<T>::promise_type
pub record Promise (A E : Type 0) : Type 0 where
  pub result : Option A
  pub exception : Option E
  pub done : Bool
  pub continuation : Option ℕ

-- Task<void>::promise_type
pub record VoidPromise (E : Type 0) : Type 0 where
  pub exception : Option E
  pub done : Bool
  pub continuation : Option ℕ

-- What Get does: it waits on, it reads an empty optional, or it ends with the outcome.
pub data Read (A E : Type 0) : Type 0 where
  blocked undefined : Read A E
  ended : Outcome A E → Read A E

module _ {A E : Type 0} where
  abbrev pub fresh_promise : Promise A E
  fresh_promise = record { result = none; exception = none; done = false; continuation = none }

  -- return_value
  abbrev return_value : A → Promise A E → Promise A E
  return_value v p = record p { result = some v }

  -- unhandled_exception
  abbrev unhandled_exception : E → Promise A E → Promise A E
  unhandled_exception e p = record p { exception = some e }

  -- The end of the body.
  unfoldable pub finish : Outcome A E → Promise A E → Promise A E
  finish (returned v) p = return_value v p
  finish (threw e) p = unhandled_exception e p

  -- FinalAwaiter::await_suspend: the critical section.
  unfoldable pub mark_done : Promise A E → Promise A E
  mark_done p = record p { done = true }

  -- FinalAwaiter::await_suspend: the coroutine that runs next, if any.
  abbrev pub resumed_next : Promise A E → Option ℕ
  resumed_next p = p.continuation

  -- Awaiter::await_ready
  abbrev pub await_ready : Promise A E → Bool
  await_ready p = p.done

  -- Awaiter::await_suspend, of the task with the handle: the coroutine that runs next.
  unfoldable pub await_suspend : ℕ → ℕ → Promise A E → Promise A E × ℕ
  await_suspend handle continuation p = (record p { continuation = some continuation }, handle)

  -- `moved` is what a value is after it was moved from.
  module _ (moved : A → A) where
    -- Awaiter::await_resume, and Get behind its wait.
    unfoldable pub await_resume : Promise A E → Read A E × Promise A E
    await_resume p = elim p.exception [
      | some e ↦ (ended (threw e), p)
      | none ↦ elim p.result [
        | none ↦ (undefined, p)
        | some v ↦ (ended (returned v), record p { result = some (moved v) })
      ]
    ]

    -- Task<T>::Get, at the time that it looks.
    unfoldable pub get : Promise A E → Read A E × Promise A E
    unfolding await_resume
    get p = if p.done then await_resume p else (blocked, p)

module _ {E : Type 0} where
  abbrev pub fresh_void : VoidPromise E
  fresh_void = record { exception = none; done = false; continuation = none }

  -- The end of the body: return_void or unhandled_exception.
  unfoldable pub finish_void : Outcome (Unit {0}) E → VoidPromise E → VoidPromise E
  finish_void (returned v) p = p
  finish_void (threw e) p = record p { exception = some e }

  unfoldable pub mark_done_void : VoidPromise E → VoidPromise E
  mark_done_void p = record p { done = true }

  unfoldable pub await_suspend_void : ℕ → ℕ → VoidPromise E → VoidPromise E × ℕ
  await_suspend_void handle continuation p = (record p { continuation = some continuation }, handle)

  unfoldable pub await_resume_void : VoidPromise E → Read (Unit {0}) E
  await_resume_void p = elim p.exception [ some e ↦ ended (threw e) | none ↦ ended (returned tt) ]

  -- Task<void>::Get
  unfoldable pub get_void : VoidPromise E → Read (Unit {0}) E
  unfolding await_resume_void
  get_void p = if p.done then await_resume_void p else blocked
