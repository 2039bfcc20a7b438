-- ===== src/AsyncRuntime/Awaiter.antt =====
-- src/async_runtime.cc and src/include/async_runtime.h: FdAwaiter, and the waits of src/reactor.cc,
-- which are FdAwaiters. Times are milliseconds.
use hxrpc.AsyncRuntime.Once.{waits, waits-erase_wait}
use hxrpc.AsyncRuntime.{
  Wait, Runtime, elem, enqueue, cancel_pending, cancel_registration, set_cancelled, find_wait, Runs,
  end, next, sets_cancelled, cancels_pending, cancels_registration,
}
use hxrpc.Common.{
  ℕ, suc, ◌+◌, ◌-◌, ◌≤◌, ◌≡◌, ◌≢◌, refl, Bool, true, false, not, ◌||◌, List, [], ◌∷◌, none, ◌==◌,
  if◌then◌else◌, arith, Bool-cases, Option-cases, inl, inr,
}
use hxrpc.Types.Decimal.{ℤ, pos, negsuc}

-- FdAwaiter: the mask is whether EPOLLIN and EPOLLOUT are waited for.
pub record FdAwaiter : Type 0 where
  pub fd : ℕ
  pub reads : Bool
  pub writes : Bool
  pub timeout_ms : ℤ

-- AsyncRuntime::WaitFor and the constructor
abbrev pub wait_for : ℕ → Bool → Bool → ℤ → FdAwaiter
wait_for fd reads writes timeout_ms = record {
  fd = fd;
  reads = reads;
  writes = writes;
  timeout_ms = timeout_ms;
}

-- Reactor::WaitReadable
abbrev pub wait_readable : ℕ → ℤ → FdAwaiter
wait_readable fd timeout_ms = wait_for fd true false timeout_ms

-- Reactor::WaitWritable
abbrev pub wait_writable : ℕ → ℤ → FdAwaiter
wait_writable fd timeout_ms = wait_for fd false true timeout_ms

-- `steady_clock::now() + milliseconds(timeout_ms_)`; the clock is past every timeout's size.
abbrev pub deadline_of : ℕ → ℤ → ℕ
deadline_of now (pos n) = now + n
deadline_of now (negsuc n) = now - suc n

-- FdAwaiter::await_suspend
unfoldable pub await_suspend : ℕ → FdAwaiter → Runtime → Runtime
await_suspend now a r = enqueue a.fd (deadline_of now a.timeout_ms) r

-- AsyncRuntime::Cancel
unfoldable pub cancel : ℕ → Runtime → Runtime
cancel token r = if token == 0 then r else cancel_registration token (cancel_pending token r)

-- FdAwaiter::~FdAwaiter
unfoldable pub destroy_awaiter : ℕ → Runtime → Runtime
unfolding cancel
destroy_awaiter token r =
    let r' = set_cancelled token r in
    if token == 0 || elem token r'.completed then r' else cancel token r'

-- `timed_out` of the wait's state, as ResumeReady left it.
abbrev was_timed_out : ℕ → List (ℕ × Bool) → Bool
was_timed_out token [] = false
was_timed_out token ((t, b) ∷ rest) = if t == token then b else was_timed_out token rest

-- FdAwaiter::await_resume
unfoldable pub await_resume : ℕ → Runtime → Bool
await_resume token r = not (was_timed_out token r.resumed)

cancel-Runs : (t : ℕ) (r : Runtime) → Runs r (cancel t r)
unfolding cancel
cancel-Runs t r = elim (Bool-cases (t == 0)) [
  | inl none_made ↦ rw none_made end
  | inr made ↦ rw made (next (cancels_pending t) (next (cancels_registration t) end))
]

-- The destructor does nothing but steps of the runtime.
pub destroy_awaiter-Runs : (t : ℕ) (r : Runtime) → Runs r (destroy_awaiter t r)
unfolding destroy_awaiter
destroy_awaiter-Runs t r =
    next (sets_cancelled t) (elim (Bool-cases (t == 0 || elem t (set_cancelled t r).completed)) [
      | inl over ↦ rw over end
      | inr open_wait ↦ rw open_wait (cancel-Runs t (set_cancelled t r))
    ])

-- A negative timeout has its deadline at once.
pub deadline_of_negative : (now n : ℕ) → deadline_of now (negsuc n) ≤ now
deadline_of_negative now n = omega arith

absent-waits : (t : ℕ) (ws : List Wait) → find_wait t ws ≡ none → waits t ws ≡ 0
absent-waits t [] e = refl
absent-waits t (w ∷ ws) e = ground (arith, absent-waits t ws)

cancel_registration_gone :
    (t : ℕ) (r : Runtime)
    → (waits t (cancel_registration t r).registrations ≡ 0)
      × ((cancel_registration t r).pending ≡ r.pending)
unfolding cancel_registration
cancel_registration_gone t r = elim (Option-cases (find_wait t r.registrations)) [
  | inl e ↦ rw (e, cancel_registration) (absent-waits t r.registrations e, refl)
  | inr (w, e) ↦
      rw (e, cancel_registration) (ground (arith, waits-erase_wait t t r.registrations), refl)
]

-- An awaiter that is destroyed before its wait is completed leaves it neither pending nor
-- registered.
pub destroy_awaiter_gone :
    (t : ℕ) (r : Runtime)
    → t ≢ 0
    → elem t r.completed ≡ false
    → (waits t (destroy_awaiter t r).pending ≡ 0)
      × (waits t (destroy_awaiter t r).registrations ≡ 0)
unfolding destroy_awaiter cancel cancel_pending set_cancelled
destroy_awaiter_gone t r made open_wait =
    let s = cancel_pending t (set_cancelled t r) in
    let gone = cancel_registration_gone t s in
    ground (arith, open_wait, gone, waits-erase_wait t t r.pending)
