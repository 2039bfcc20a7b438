-- ===== src/AsyncRuntime/Cancelled.antt =====
-- src/async_runtime.cc: the waits whose awaiter is gone.
use hxrpc.AsyncRuntime.Once.{times, times-append}
use hxrpc.Common.{
  ℕ, ◌≡◌, refl, Bool, true, false, List, [], ◌∷◌, ◌==◌, arith, Bool-cases, inl, inr, nat_eq,
}
use hxrpc.AsyncRuntime.{
  Wait, Runtime, elem, enqueue, cancel_pending, cancel_registration, set_cancelled, take_pending,
  register_first, register_next, ready, expire_timed_out, resume_first, resume_ready, Step,
  enqueues, cancels_pending, cancels_registration, sets_cancelled, takes_pending, registers,
  is_ready, expires, resumes, Runs, end, next,
}

-- The wait of `t` is marked as cancelled, and was resumed `n` times.
record IsSettled (t n : ℕ) (r : Runtime) : Type 0 where
  flagged : elem t r.cancelled ≡ true
  resumptions : times t r.resumed ≡ n

register_first-IsSettled :
    (t n : ℕ) (ok : Bool) (ws : List Wait) (r : Runtime)
    → IsSettled t n r
    → IsSettled t n (register_first ok ws r)
unfolding register_first
register_first-IsSettled t n ok [] r v = v
register_first-IsSettled t n true (w ∷ ws) r v = record {
  flagged = v.flagged;
  resumptions = v.resumptions;
}
register_first-IsSettled t n false (w ∷ ws) r v = record {
  flagged = v.flagged;
  resumptions = v.resumptions;
}

-- A wait that is resumed is not the cancelled one.
resume_first-IsSettled :
    (t n : ℕ) (ws : List (Wait × Bool)) (r : Runtime)
    → IsSettled t n r
    → IsSettled t n (resume_first ws r)
unfolding resume_first
resume_first-IsSettled t n [] r v = v
resume_first-IsSettled t n ((w, b) ∷ rest) r v = elim (Bool-cases (elem w.token r.cancelled)) [
  | inl gone ↦ rw (gone, resume_first) (record { flagged = v.flagged; resumptions = v.resumptions })
  | inr alive ↦
      let other : (w.token == t) ≡ false = ground (arith, v.flagged, alive) in
      rw (alive, resume_first)
        (record {
          flagged = v.flagged;
          resumptions =
              ground (arith, times-append t r.resumed ((w.token, b) ∷ []), other, v.resumptions);
        })
]

Step-IsSettled : {r s : Runtime} (t n : ℕ) → Step r s → IsSettled t n r → IsSettled t n s
unfolding enqueue cancel_pending cancel_registration set_cancelled take_pending register_next ready
    expire_timed_out resume_ready
Step-IsSettled t n (enqueues fd deadline small) v = record {
  flagged = v.flagged;
  resumptions = v.resumptions;
}
Step-IsSettled t n (cancels_pending k) v = record {
  flagged = v.flagged;
  resumptions = v.resumptions;
}
Step-IsSettled t n (cancels_registration k) v = ground (arith, v.flagged, v.resumptions)
Step-IsSettled t n (sets_cancelled k) v = ground (arith, v.flagged, v.resumptions)
Step-IsSettled t n (takes_pending) v = record { flagged = v.flagged; resumptions = v.resumptions }
Step-IsSettled t n (registers {r} ok) v = register_first-IsSettled t n ok r.moving r v
Step-IsSettled t n (is_ready k) v = ground (arith, v.flagged, v.resumptions)
Step-IsSettled t n (expires now) v = record { flagged = v.flagged; resumptions = v.resumptions }
Step-IsSettled t n (resumes {r}) v = resume_first-IsSettled t n r.resuming r v

Runs-IsSettled : {r s : Runtime} (t n : ℕ) → Runs r s → IsSettled t n r → IsSettled t n s
Runs-IsSettled t n end v = v
Runs-IsSettled t n (next step rest) v = Runs-IsSettled t n rest (Step-IsSettled t n step v)

-- Once an awaiter has set its flag, its coroutine is not resumed any more, in any interleaving in
-- which ResumeReady's test of the flag and its resumption are one step.
pub resumed_never :
    {r s : Runtime} (t : ℕ)
    → Runs r s
    → elem t r.cancelled ≡ true
    → times t s.resumed ≡ times t r.resumed
resumed_never {r} t run flagged =
    (Runs-IsSettled t (times t r.resumed) run
      (record { flagged = flagged; resumptions = refl })).resumptions
