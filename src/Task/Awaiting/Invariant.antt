-- ===== src/Task/Awaiting/Invariant.antt =====
-- src/include/task.h: what holds of a task and of the coroutine that awaits it, at all times.
use hxrpc.Common.{ℕ, ◌<◌, ◌≤◌, ◌≡◌, ◌≢◌, refl, Bool, true, false, Option, none, some}
use hxrpc.Task.{Outcome, returned, threw, Promise, ended}
use hxrpc.Task.Awaiting.{
  Body, waiting, finished, marked, at_end, Waiter, suspended, reads, resumes, System, called,
}

-- The wait that the body stands at has not come.
abbrev pub Awaits : Body → (ℕ → Bool) → Type 0
Awaits (waiting k) q = q k ≡ true
Awaits _ q = Unit

module _ {A E : Type 0} where
  -- The promise holds the outcome, if the body has come to one that nobody has read.
  abbrev pub Holds : Option (Outcome A E) → Promise A E → Type 0
  Holds none p = (p.result ≡ none) × (p.exception ≡ none)
  Holds (some (returned v)) p = (p.result ≡ some v) × (p.exception ≡ none)
  Holds (some (threw e)) p = p.exception ≡ some e

  abbrev pub Unread : Waiter A E → Option (Outcome A E) → Promise A E → Type 0
  Unread (reads r) o p = Unit
  Unread (resumes r) o p = Unit
  Unread _ o p = Holds o p

  -- What was read is how the body ended.
  abbrev pub ReadOf : Waiter A E → Option (Outcome A E) → Type 0
  ReadOf (reads r) o = (x : Outcome A E) × (o ≡ some x) × (r ≡ ended x)
  ReadOf (resumes r) o = (x : Outcome A E) × (o ≡ some x) × (r ≡ ended x)
  ReadOf _ o = Unit

  abbrev pub EndedWith : Body → Option (Outcome A E) → Bool → Type 0
  EndedWith finished o d = (x : Outcome A E) × (o ≡ some x) × (d ≡ false)
  EndedWith marked o d = (x : Outcome A E) × (o ≡ some x) × (d ≡ true)
  EndedWith at_end o d = (x : Outcome A E) × (o ≡ some x) × (d ≡ true)
  EndedWith _ o d = (o ≡ none) × (d ≡ false)

  -- A suspended waiter is registered as the continuation, and is not forgotten at the end.
  abbrev pub Registered : Waiter A E → Body → Option ℕ → Type 0
  Registered suspended b c = (c ≢ none) × (b ≢ at_end)
  Registered (resumes r) b c = b ≡ at_end
  Registered _ b c = c ≡ none

  -- A wait that has not come and is not to come any more.
  pub record Early (s : System A E) : Type 0 where
    pub wait : ℕ
    pub old : wait < s.next_wait
    pub not_come : s.came wait ≡ false
    pub cancelled : s.pending wait ≡ false

  -- A co_await that suspended has cost the body one of its waits.
  abbrev pub Costs : Waiter A E → System A E → Type 0
  Costs suspended s = Early s
  Costs (resumes r) s = Early s
  Costs _ s = Unit

  pub record IsSound (s : System A E) : Type 0 where
    pub unread : Unread s.waiter s.outcome s.promise
    pub read_of : ReadOf s.waiter s.outcome
    pub ended_with : EndedWith s.body s.outcome s.promise.done
    pub registered : Registered s.waiter s.body s.promise.continuation
    pub costs : Costs s.waiter s
    pub accounted : (k : ℕ) → s.pending k ≡ true → s.body ≡ waiting k
    pub not_come : (k : ℕ) → s.pending k ≡ true → s.came k ≡ false
    pub later : (k : ℕ) → s.next_wait ≤ k → s.came k ≡ false
    pub awaited : Awaits s.body s.pending
    pub numbered : (k : ℕ) → s.pending k ≡ true → k < s.next_wait

  pub called-IsSound : IsSound called
  called-IsSound = record {
    unread = (refl, refl);
    read_of = tt;
    ended_with = (refl, refl);
    registered = refl;
    costs = tt;
    accounted = λ k e. cc;
    not_come = λ k e. refl;
    later = λ k e. refl;
    awaited = tt;
    numbered = λ k e. cc;
  }
