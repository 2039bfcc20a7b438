-- ===== src/Task/Reading.antt =====
-- src/include/task.h: what is read from a task is how its body ended.
use hxrpc.Common.{ℕ, ◌≡◌, refl, some}
use hxrpc.Task.{
  Outcome, returned, threw, blocked, ended, fresh_promise, fresh_void, finish, mark_done,
  await_suspend, await_resume, get, finish_void, mark_done_void, await_suspend_void,
  await_resume_void, get_void, resumed_next,
}

module _ {A E : Type 0} (moved : A → A) where
  -- Get waits until the task is marked as done, and then ends as the body did, as a resumed
  -- co_await does; whoever was registered before that runs next.
  pub get-finish :
      (o : Outcome A E) (handle waiter : ℕ)
      → let awaited = (await_suspend handle waiter (finish o fresh_promise)).0 in
        ((get moved (finish o fresh_promise)).0 ≡ blocked)
        × ((get moved (mark_done awaited)).0 ≡ ended o)
        × ((await_resume moved (mark_done awaited)).0 ≡ ended o)
        × (resumed_next (mark_done awaited) ≡ some waiter)
  unfolding get finish mark_done await_suspend
  get-finish (returned v) handle waiter = (refl, refl, refl, refl)
  get-finish (threw e) handle waiter = (refl, refl, refl, refl)

-- Task<void> reads, and resumes, as Task<T> does over a value of no content.
pub get_void-get :
    {E : Type 0} (o : Outcome (Unit {0}) E) (handle waiter : ℕ)
    → let p = (await_suspend handle waiter (finish o fresh_promise)).0 in
      let q = (await_suspend_void handle waiter (finish_void o fresh_void)).0 in
      (get_void q ≡ (get (λ v. v) p).0)
      × (get_void (mark_done_void q) ≡ (get (λ v. v) (mark_done p)).0)
      × (await_resume_void (mark_done_void q) ≡ (await_resume (λ v. v) (mark_done p)).0)
      × (q.continuation ≡ p.continuation)
unfolding get get_void finish finish_void mark_done mark_done_void await_suspend await_suspend_void
get_void-get (returned v) handle waiter = (refl, refl, refl, refl)
get_void-get (threw e) handle waiter = (refl, refl, refl, refl)
