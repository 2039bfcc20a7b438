-- ===== src/Task/Awaiting/Laws.antt =====
-- src/include/task.h: what a co_await of a task reads, and what becomes of the waits of its body.
use hxrpc.Common.{ℕ, ◌<◌, ◌≡◌, ◌≢◌, refl, subst, ◌⊎◌, inl, inr, false, some}
use hxrpc.Task.{Outcome, Read, ended}
use hxrpc.Task.Awaiting.{
  Body, at_end, Waiter, suspended, reads, resumes, System, complete, mark, hand_over, check,
  suspend, Step, pauses, wakes, completes, marks, hands_over, checks, suspends, Runs, call, next,
}
use hxrpc.Task.Awaiting.Invariant.{called-IsSound, ReadOf, Registered, Costs, IsSound}
use hxrpc.Task.Awaiting.Moves.{at_places, pause-IsSound, complete-IsSound, mark-IsSound}
use hxrpc.Task.Awaiting.Meetings.{
  hand_over-IsSound, check-IsSound, woken_at-IsSound, suspended_at-IsSound,
}

module _ {A E : Type 0} where
  abbrev placed : System A E → Body → Waiter A E → System A E
  placed s = at_places s.promise s.pending s.came s.next_wait s.outcome

  -- A state, with its body and its waiter where they are known to be.
  placed-IsSound :
      (s : System A E) {b : Body} {w : Waiter A E}
      → s.body ≡ b
      → s.waiter ≡ w
      → IsSound s
      → IsSound (placed s b w)
  placed-IsSound s {b} {w} e f v =
      subst (λ x. IsSound (placed s x w)) e (subst (λ y. IsSound (placed s s.body y)) f v)

module _ {A E : Type 0} {moved : A → A} {handle continuation : ℕ} where
  Step-IsSound : {s t : System A E} → Step handle continuation moved s t → IsSound s → IsSound t
  unfolding complete mark hand_over check suspend
  Step-IsSound {s} (pauses e) v =
      pause-IsSound s.promise s.pending s.came s.next_wait s.outcome s.waiter
        (placed-IsSound s e refl v)
  Step-IsSound {s} (wakes k f e) v =
      woken_at-IsSound moved handle continuation s.promise s.pending s.came s.next_wait s.outcome
        s.body s.waiter k e v
  Step-IsSound {s} (completes o e) v =
      complete-IsSound s.promise s.pending s.came s.next_wait s.outcome s.waiter o
        (placed-IsSound s e refl v)
  Step-IsSound {s} (marks e) v =
      mark-IsSound s.promise s.pending s.came s.next_wait s.outcome s.waiter
        (placed-IsSound s e refl v)
  Step-IsSound {s} (hands_over e) v =
      hand_over-IsSound moved handle continuation s.promise s.pending s.came s.next_wait s.outcome
        s.waiter (placed-IsSound s e refl v)
  Step-IsSound {s} (checks e) v =
      check-IsSound moved handle continuation s.promise s.pending s.came s.next_wait s.outcome
        s.body (placed-IsSound s refl e v)
  Step-IsSound {s} (suspends f e) v =
      suspended_at-IsSound moved handle continuation s.promise s.pending s.came s.next_wait
        s.outcome s.body e (placed-IsSound s refl f v)

  Runs-IsSound : {s : System A E} → Runs handle continuation moved s → IsSound s
  Runs-IsSound call = called-IsSound
  Runs-IsSound (next r step) = Step-IsSound step (Runs-IsSound r)

  -- In every interleaving of a task and the coroutine that awaits it in which no coroutine is
  -- resumed where it may not be, what the co_await reads, with or without a suspension, is how the
  -- body ended.
  pub co_await_reads :
      {s : System A E}
      → Runs handle continuation moved s
      → (r : Read A E) → (s.waiter ≡ reads r) ⊎ (s.waiter ≡ resumes r)
      → (x : Outcome A E) × (s.outcome ≡ some x) × (r ≡ ended x)
  co_await_reads {s} runs r (inl e) = subst (λ w. ReadOf w s.outcome) e (Runs-IsSound runs).read_of
  co_await_reads {s} runs r (inr e) = subst (λ w. ReadOf w s.outcome) e (Runs-IsSound runs).read_of

  pub co_await_ends :
      {s : System A E} → Runs handle continuation moved s → s.body ≡ at_end → s.waiter ≢ suspended
  co_await_ends {s} runs e f =
      (subst (λ w. Registered w s.body s.promise.continuation) f (Runs-IsSound runs).registered).1 e

module _ {A E : Type 0} {moved : A → A} {handle continuation : ℕ} {s : System A E}
    (runs : Runs handle continuation moved s) where
  -- In every interleaving of a task and the coroutine that awaits it in which no coroutine is
  -- resumed where it may not be, a co_await that has suspended has cost the body one of its waits:
  -- there is one that has not come and is not to come any more.
  pub co_await_early :
      (s.waiter ≡ suspended) ⊎ ((r : Read A E) × (s.waiter ≡ resumes r))
      → (k : ℕ) × (k < s.next_wait) × (s.came k ≡ false) × (s.pending k ≡ false)
  co_await_early (inl e) =
      let a = subst (λ w. Costs w s) e (Runs-IsSound runs).costs in
      (a.wait, a.old, a.not_come, a.cancelled)
  co_await_early (inr (r, e)) =
      let a = subst (λ w. Costs w s) e (Runs-IsSound runs).costs in
      (a.wait, a.old, a.not_come, a.cancelled)
