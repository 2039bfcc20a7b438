-- ===== src/AsyncRuntime.antt =====
-- src/async_runtime.cc and src/include/async_runtime.h: waits of coroutines for descriptors.
-- Three kinds of code run at once: await_suspend in any thread, the destructor of an awaiter in any
-- thread, and the loop thread. Each operation below is what one of them does under one lock, or
-- between two; Step puts them in any order. The shared WaitState of a registration is kept by its
-- token. handle.resume() is recorded in `resumed`; ResumeReady's test of the flag and the resumption
-- are one step.
pub mod Once
pub mod Cancelled
pub mod Loop
pub mod Awaiter
use hxrpc.Common.{
  ℕ, zero, suc, ◌+◌, ◌%◌, ◌^◌, ◌<◌, ◌≡◌, Bool, true, false, not, ◌||◌, ◌&&◌, List, [], ◌∷◌, ◌++◌,
  Option, none, some, ◌==◌, leb, if◌then◌else◌, insert, erase, nat_eq,
}

-- WaitRegistration. The deadline is a time of the steady clock.
pub record Wait : Type 0 where
  pub token : ℕ
  pub fd : ℕ
  pub deadline : ℕ

pub record Runtime : Type 0 where
  pub next_token : ℕ
  pub pending : List Wait
  -- taken out of `pending` by RegisterPending, and not yet in `registrations`
  pub moving : List Wait
  -- keyed by the token
  pub registrations : List Wait
  -- taken out of `registrations`, or refused by epoll, and not yet resumed; with `timed_out`
  pub resuming : List (Wait × Bool)
  -- the flags of the WaitStates, and the handles resumed with `timed_out`, oldest first
  pub cancelled : List ℕ
  pub completed : List ℕ
  pub resumed : List (ℕ × Bool)
  -- the token that epoll holds for a descriptor
  pub epoll : List (ℕ × ℕ)

-- AsyncRuntime::AsyncRuntime
abbrev pub started : Runtime
started = record {
  next_token = 1;
  pending = [];
  moving = [];
  registrations = [];
  resuming = [];
  cancelled = [];
  completed = [];
  resumed = [];
  epoll = [];
}

abbrev pub elem : ℕ → List ℕ → Bool
elem t [] = false
elem t (x ∷ xs) = x == t || elem t xs

-- `registrations_.find(token)`
abbrev pub find_wait : ℕ → List Wait → Option Wait
find_wait t [] = none
find_wait t (w ∷ ws) = if w.token == t then some w else find_wait t ws

-- Erasure by token: of the loop over `pending_`, and of `registrations_.erase`.
abbrev pub erase_wait : ℕ → List Wait → List Wait
erase_wait t [] = []
erase_wait t (w ∷ ws) = if w.token == t then erase_wait t ws else w ∷ erase_wait t ws

-- The waits whose deadline has come, and the others.
abbrev pub expired : ℕ → List Wait → List Wait
expired now [] = []
expired now (w ∷ ws) = if leb w.deadline now then w ∷ expired now ws else expired now ws

abbrev pub unexpired : ℕ → List Wait → List Wait
unexpired now [] = []
unexpired now (w ∷ ws) = if leb w.deadline now then unexpired now ws else w ∷ unexpired now ws

-- FdAwaiter::await_suspend and Enqueue
unfoldable pub enqueue : ℕ → ℕ → Runtime → Runtime
enqueue fd deadline r = record r {
  next_token = (r.next_token + 1) % 2 ^ 64;
  pending = r.pending ++ record { token = r.next_token; fd = fd; deadline = deadline } ∷ [];
}

-- The first critical section of Cancel.
unfoldable pub cancel_pending : ℕ → Runtime → Runtime
cancel_pending t r = record r {
  pending = erase_wait t r.pending;
  completed = elim (find_wait t r.pending) [ none ↦ r.completed | some w ↦ t ∷ r.completed ];
}

-- The second critical section of Cancel.
unfoldable pub cancel_registration : ℕ → Runtime → Runtime
cancel_registration t r = elim (find_wait t r.registrations) [
  | none ↦ r
  | some w ↦ record r {
    registrations = erase_wait t r.registrations;
    completed = t ∷ r.completed;
    epoll = erase w.fd r.epoll;
  }
]

-- The destructor of an awaiter sets the flag; it calls Cancel unless the wait is completed.
unfoldable pub set_cancelled : ℕ → Runtime → Runtime
set_cancelled t r = record r { cancelled = t ∷ r.cancelled }

-- RegisterPending: the swap.
unfoldable pub take_pending : Runtime → Runtime
take_pending r = record r { moving = r.moving ++ r.pending; pending = [] }

register_first : Bool → List Wait → Runtime → Runtime
register_first ok [] r = r
register_first true (w ∷ ws) r = record r {
  moving = ws;
  registrations = w ∷ erase_wait w.token r.registrations;
  epoll = insert w.fd w.token r.epoll;
}
register_first false (w ∷ ws) r = record r { moving = ws; resuming = r.resuming ++ (w, true) ∷ [] }

-- RegisterPending: one round of the loop, on whether epoll_ctl took the descriptor. A descriptor
-- that is registered already is given the new token by EPOLL_CTL_MOD.
unfoldable pub register_next : Bool → Runtime → Runtime
unfolding register_first
register_next ok r = register_first ok r.moving r

-- Run: an event of a token.
unfoldable pub ready : ℕ → Runtime → Runtime
ready t r = elim (find_wait t r.registrations) [
  | none ↦ r
  | some w ↦ record r {
    registrations = erase_wait t r.registrations;
    resuming = r.resuming ++ (w, false) ∷ [];
    epoll = erase w.fd r.epoll;
  }
]

abbrev pub all_timed_out : List Wait → List (Wait × Bool)
all_timed_out [] = []
all_timed_out (w ∷ ws) = (w, true) ∷ all_timed_out ws

abbrev pub forget_all : List Wait → List (ℕ × ℕ) → List (ℕ × ℕ)
forget_all [] e = e
forget_all (w ∷ ws) e = forget_all ws (erase w.fd e)

-- ExpireTimedOut: the scan.
unfoldable pub expire_timed_out : ℕ → Runtime → Runtime
expire_timed_out now r = record r {
  registrations = unexpired now r.registrations;
  resuming = r.resuming ++ all_timed_out (expired now r.registrations);
  epoll = forget_all (expired now r.registrations) r.epoll;
}

resume_first : List (Wait × Bool) → Runtime → Runtime
resume_first [] r = r
resume_first ((w, timed_out) ∷ rest) r =
    if elem w.token r.cancelled
    then record r { resuming = rest; completed = w.token ∷ r.completed }
    else record r {
      resuming = rest;
      completed = w.token ∷ r.completed;
      resumed = r.resumed ++ (w.token, timed_out) ∷ [];
    }

-- ResumeReady, of the next wait in line.
unfoldable pub resume_ready : Runtime → Runtime
unfolding resume_first
resume_ready r = resume_first r.resuming r

-- Any thread's next operation. The token counter has not wrapped.
pub data Step : Runtime → Runtime → Type 0 where
  enqueues :
      {r : Runtime} (fd deadline : ℕ) → r.next_token + 1 < 2 ^ 64 → Step r (enqueue fd deadline r)
  cancels_pending : {r : Runtime} (t : ℕ) → Step r (cancel_pending t r)
  cancels_registration : {r : Runtime} (t : ℕ) → Step r (cancel_registration t r)
  sets_cancelled : {r : Runtime} (t : ℕ) → Step r (set_cancelled t r)
  takes_pending : {r : Runtime} → Step r (take_pending r)
  registers : {r : Runtime} (ok : Bool) → Step r (register_next ok r)
  is_ready : {r : Runtime} (t : ℕ) → Step r (ready t r)
  expires : {r : Runtime} (now : ℕ) → Step r (expire_timed_out now r)
  resumes : {r : Runtime} → Step r (resume_ready r)

-- A run of the program from one state to another.
pub data Runs : Runtime → Runtime → Type 0 where
  end : {r : Runtime} → Runs r r
  next : {r s t : Runtime} → Step r s → Runs s t → Runs r t
