-- ===== src/AsyncRuntime/Loop/Resuming.antt =====
-- src/async_runtime.cc: what the loop thread completes, it resumes, unless the awaiter is gone.
use hxrpc.AsyncRuntime.Loop.Expiry.{run_round-completes}
use hxrpc.AsyncRuntime.Loop.Places.{In}
use hxrpc.AsyncRuntime.Loop.{
  register_one, register_all, register_pending, polled, handle_event, handle_events, resume_all,
  expire, run_round, first_ok, other_oks,
}
use hxrpc.AsyncRuntime.Loop.Kept.{Runs-Kept}
use hxrpc.AsyncRuntime.Once.{times, times-append, Runs-IsSound, started-IsSound}
use hxrpc.AsyncRuntime.{
  Wait, Runtime, started, elem, find_wait, take_pending, register_first, register_next, ready,
  expire_timed_out, resume_first, resume_ready, Runs,
}
use hxrpc.Common.{
  ℕ, ◌≤◌, ◌≡◌, refl, sym, subst, ℕ_discrete, ap, ◌∙◌, ◌⊎◌, inl, inr, Bool, true, false, List, [],
  ◌∷◌, ◌==◌, arith, Bool-cases, Option-cases,
}

-- The wait of a token was resumed, or its awaiter is gone.
abbrev pub Settled : ℕ → Runtime → Type 0
Settled t r = (1 ≤ times t r.resumed) ⊎ (elem t r.cancelled ≡ true)

record Settles (r s : Runtime) : Type 0 where
  flags : s.cancelled ≡ r.cancelled
  counts : (t : ℕ) → times t r.resumed ≤ times t s.resumed
  fresh : (t : ℕ) → elem t s.completed ≡ true → (elem t r.completed ≡ true) ⊎ Settled t s

Settled-later : {r s : Runtime} → Settles r s → (t : ℕ) → Settled t r → Settled t s
Settled-later v t (inl n) = inl (omega (arith, v.counts t))
Settled-later v t (inr c) = inr (ap (elem t) v.flags ∙ c)

Settles-trans : {r s u : Runtime} → Settles r s → Settles s u → Settles r u
Settles-trans a b = record {
  flags = b.flags ∙ a.flags;
  counts = λ t. omega (arith, a.counts t, b.counts t);
  fresh = λ t e. elim (b.fresh t e) [
    | inr new ↦ inr new
    | inl old ↦ elim (a.fresh t old) [
      | inl older ↦ inl older
      | inr new ↦ inr (Settled-later b t new)
    ]
  ];
}

-- An operation that neither completes nor resumes a wait.
Settles-unchanged :
    {r s : Runtime}
    → s.cancelled ≡ r.cancelled
    → s.resumed ≡ r.resumed
    → s.completed ≡ r.completed
    → Settles r s
Settles-unchanged c n f = record {
  flags = c;
  counts = λ t. omega (arith, ap (times t) n);
  fresh = λ t e. inl (ap (elem t) (sym f) ∙ e);
}

resume_first-Settles : (xs : List (Wait × Bool)) (r : Runtime) → Settles r (resume_first xs r)
unfolding resume_first
resume_first-Settles [] r = Settles-unchanged refl refl refl
resume_first-Settles ((w, b) ∷ xs) r = elim (Bool-cases (elem w.token r.cancelled)) [
  | inl gone ↦
      rw (gone, resume_first)
        (record {
          flags = refl;
          counts = λ t. omega arith;
          fresh = λ t e. elim (ℕ_discrete w.token t) [
            | yes q ↦ inr (inr (subst (λ x. elem x r.cancelled ≡ true) q gone))
            | no q ↦ inl (ground arith)
          ];
        })
  | inr alive ↦
      rw (alive, resume_first)
        (record {
          flags = refl;
          counts = λ t. omega (arith, times-append t r.resumed ((w.token, b) ∷ []));
          fresh = λ t e. elim (ℕ_discrete w.token t) [
            | yes q ↦ inr (inl (ground (arith, times-append t r.resumed ((w.token, b) ∷ []))))
            | no q ↦ inl (ground arith)
          ];
        })
]

resume_ready-Settles : (r : Runtime) → Settles r (resume_ready r)
unfolding resume_ready
resume_ready-Settles r = resume_first-Settles r.resuming r

register_first-Settles :
    (ok : Bool) (ws : List Wait) (r : Runtime) → Settles r (register_first ok ws r)
unfolding register_first
register_first-Settles ok [] r = Settles-unchanged refl refl refl
register_first-Settles true (w ∷ ws) r = Settles-unchanged refl refl refl
register_first-Settles false (w ∷ ws) r = Settles-unchanged refl refl refl

register_one-Settles : (ok : Bool) (r : Runtime) → Settles r (register_one ok r)
unfolding register_one register_next
register_one-Settles true r = register_first-Settles true r.moving r
register_one-Settles false r =
    Settles-trans (register_first-Settles false r.moving r)
      (resume_ready-Settles (register_first false r.moving r))

register_all-Settles :
    (ws : List Wait) (oks : List Bool) (r : Runtime) → Settles r (register_all ws oks r)
unfolding register_all
register_all-Settles [] oks r = Settles-unchanged refl refl refl
register_all-Settles (w ∷ ws) oks r =
    Settles-trans (register_one-Settles (first_ok oks) r)
      (register_all-Settles ws (other_oks oks) _)

register_pending-Settles : (oks : List Bool) (r : Runtime) → Settles r (register_pending oks r)
unfolding register_pending take_pending
register_pending-Settles oks r =
    Settles-trans {s = take_pending r} (Settles-unchanged refl refl refl)
      (register_all-Settles (take_pending r).moving oks (take_pending r))

ready-Settles : (t : ℕ) (r : Runtime) → Settles r (ready t r)
unfolding ready
ready-Settles t r = elim (Option-cases (find_wait t r.registrations)) [
  | inl e ↦ rw (e, ready) (Settles-unchanged refl refl refl)
  | inr (w, e) ↦ rw (e, ready) (Settles-unchanged refl refl refl)
]

handle_event-Settles : (t : ℕ) (oks : List Bool) (r : Runtime) → Settles r (handle_event t oks r)
unfolding handle_event
handle_event-Settles t oks r = elim (Bool-cases (t == 0)) [
  | inl wake ↦ rw wake (register_pending-Settles oks r)
  | inr other ↦ rw other (Settles-trans (ready-Settles t r) (resume_ready-Settles (ready t r)))
]

handle_events-Settles : (es : List (ℕ × List Bool)) (r : Runtime) → Settles r (handle_events es r)
unfolding handle_events
handle_events-Settles [] r = Settles-unchanged refl refl refl
handle_events-Settles ((t, oks) ∷ es) r =
    Settles-trans (handle_event-Settles t oks r) (handle_events-Settles es (handle_event t oks r))

resume_all-Settles : (xs : List (Wait × Bool)) (r : Runtime) → Settles r (resume_all xs r)
unfolding resume_all
resume_all-Settles [] r = Settles-unchanged refl refl refl
resume_all-Settles (x ∷ xs) r =
    Settles-trans (resume_ready-Settles r) (resume_all-Settles xs (resume_ready r))

expire-Settles : (now : ℕ) (r : Runtime) → Settles r (expire now r)
unfolding expire expire_timed_out
expire-Settles now r =
    Settles-trans {s = expire_timed_out now r} (Settles-unchanged refl refl refl)
      (resume_all-Settles (expire_timed_out now r).resuming (expire_timed_out now r))

-- A wait that some state of the program held as enqueued is never lost: in any state that later
-- steps of the threads lead to, between two rounds of the loop thread, if it is not completed and
-- its deadline is at most the clock of the next round, it is resumed by the end of that round or
-- has its flag set by its awaiter's destructor, whatever epoll_ctl and the events are, if
-- epoll_wait does not fail, no other thread acts meanwhile, and the coroutines resumed in the
-- round enqueue and cancel nothing in it.
pub resumed_in_time :
    {r₀ r : Runtime} (w : Wait)
    → Runs started r₀
    → In w r₀.pending
    → Runs r₀ r
    → r.moving ≡ []
    → r.resuming ≡ []
    → elem w.token r.completed ≡ false
    → (oks : List Bool) (events : List (ℕ × List Bool)) (now : ℕ) → w.deadline ≤ now
    → Settled w.token (run_round (record { oks = oks; poll = polled events; now = now }) r)
unfolding run_round
resumed_in_time {r₀} {r} w before i since moving resuming open_wait oks events now due =
    let sound = Runs-IsSound before started-IsSound in
    let kept = Runs-Kept w since sound (record { place = inl i }) in
    let done =
      run_round-completes w (Runs-IsSound since sound) moving resuming kept oks events now due in
    let r₁ = register_pending oks r in
    let r₂ = handle_events events r₁ in
    let settles : Settles r (expire now r₂) =
      Settles-trans (register_pending-Settles oks r)
        (Settles-trans (handle_events-Settles events r₁) (expire-Settles now r₂)) in
    elim (settles.fresh w.token done) [ inl old ↦ absurd (cc) | inr new ↦ new ]
