-- ===== src/AsyncRuntime/Once.antt =====
-- src/async_runtime.cc: the tokens of the waits, counted over every place of the runtime.
use hxrpc.Common.{
  ℕ, ◌+◌, ◌^◌, ◌<◌, ◌≤◌, ◌≡◌, refl, ap, Bool, true, false, List, [], ◌∷◌, ◌++◌, some, ◌==◌,
  if◌then◌else◌, arith, Bool-cases, Option-cases, inl, inr, nat_eq,
}
use hxrpc.AsyncRuntime.{
  Wait, Runtime, started, elem, find_wait, erase_wait, expired, unexpired, enqueue, cancel_pending,
  cancel_registration, set_cancelled, take_pending, register_first, register_next, ready,
  all_timed_out, expire_timed_out, resume_first, resume_ready, Step, enqueues, cancels_pending,
  cancels_registration, sets_cancelled, takes_pending, registers, is_ready, expires, resumes, Runs,
  end, next,
}

-- How often a token stands in a list of waits, of waits to resume, and of resumed tokens.
abbrev pub waits : ℕ → List Wait → ℕ
waits t [] = 0
waits t (w ∷ ws) = (if w.token == t then 1 else 0) + waits t ws

abbrev pub flights : ℕ → List (Wait × Bool) → ℕ
flights t [] = 0
flights t ((w, b) ∷ ws) = (if w.token == t then 1 else 0) + flights t ws

abbrev pub times : ℕ → List (ℕ × Bool) → ℕ
times t [] = 0
times t ((x, b) ∷ xs) = (if x == t then 1 else 0) + times t xs

waits-append : (t : ℕ) (a b : List Wait) → waits t (a ++ b) ≡ waits t a + waits t b
waits-append t [] b = omega arith
waits-append t (w ∷ a) b = omega (arith, waits-append t a b)

pub flights-append :
    (t : ℕ) (a b : List (Wait × Bool)) → flights t (a ++ b) ≡ flights t a + flights t b
flights-append t [] b = omega arith
flights-append t ((w, x) ∷ a) b = omega (arith, flights-append t a b)

pub times-append : (t : ℕ) (a b : List (ℕ × Bool)) → times t (a ++ b) ≡ times t a + times t b
times-append t [] b = omega arith
times-append t ((w, x) ∷ a) b = omega (arith, times-append t a b)

pub flights-all_timed_out : (t : ℕ) (ws : List Wait) → flights t (all_timed_out ws) ≡ waits t ws
flights-all_timed_out t [] = refl
flights-all_timed_out t (w ∷ ws) = omega (arith, flights-all_timed_out t ws)

pub waits-erase_wait :
    (t k : ℕ) (ws : List Wait) → waits t (erase_wait k ws) ≡ (if k == t then 0 else waits t ws)
waits-erase_wait t k [] = ground arith
waits-erase_wait t k (w ∷ ws) = ground (arith, waits-erase_wait t k ws)

-- A wait that is found has the token, and is one of those.
pub found-waits :
    (t : ℕ) (ws : List Wait) (w : Wait) → find_wait t ws ≡ some w → (w.token ≡ t) × (1 ≤ waits t ws)
found-waits t [] w e = absurd (cc)
found-waits t (x ∷ ws) w e = ground (arith, found-waits t ws w)

waits-expired :
    (t now : ℕ) (ws : List Wait)
    → waits t (unexpired now ws) + waits t (expired now ws) ≡ waits t ws
waits-expired t now [] = refl
waits-expired t now (w ∷ ws) = ground (arith, waits-expired t now ws)

-- How often a token stands anywhere, the resumptions counted.
abbrev pub total : ℕ → Runtime → ℕ
total t r =
    waits t r.pending
    + waits t r.moving
    + waits t r.registrations
    + flights t r.resuming
    + times t r.resumed

-- Every token stands at most once anywhere, and the next ones nowhere.
pub record IsSound (r : Runtime) : Type 0 where
  pub once : (t : ℕ) → total t r ≤ 1
  pub unused : (t : ℕ) → r.next_token ≤ t → total t r ≡ 0

-- A step that brings in no token.
record Shrinks (r s : Runtime) : Type 0 where
  same_next : s.next_token ≡ r.next_token
  no_more : (t : ℕ) → total t s ≤ total t r

Shrinks-IsSound : {r s : Runtime} → Shrinks r s → IsSound r → IsSound s
Shrinks-IsSound x v = record {
  once = λ t. omega (arith, x.no_more t, v.once t);
  unused = λ t h. omega (arith, x.no_more t, x.same_next, v.unused t);
}

enqueue-IsSound :
    (fd deadline : ℕ) (r : Runtime)
    → r.next_token + 1 < 2 ^ 64
    → IsSound r
    → IsSound (enqueue fd deadline r)
unfolding enqueue
enqueue-IsSound fd deadline r small v =
    let w : Wait = record { token = r.next_token; fd = fd; deadline = deadline } in
    record {
      once = λ t. ground (arith, waits-append t r.pending (w ∷ []), v.once t, v.unused t);
      unused = λ t h. ground (arith, waits-append t r.pending (w ∷ []), v.unused t);
    }

cancel_pending-Shrinks : (k : ℕ) (r : Runtime) → Shrinks r (cancel_pending k r)
unfolding cancel_pending
cancel_pending-Shrinks k r = record {
  same_next = refl;
  no_more = λ t. ground (arith, waits-erase_wait t k r.pending);
}

cancel_registration-Shrinks : (k : ℕ) (r : Runtime) → Shrinks r (cancel_registration k r)
unfolding cancel_registration
cancel_registration-Shrinks k r = elim (Option-cases (find_wait k r.registrations)) [
  | inl e ↦ rw (e, cancel_registration) (record { same_next = refl; no_more = λ t. omega arith })
  | inr (w, e) ↦
      rw (e, cancel_registration)
        (record {
          same_next = refl;
          no_more = λ t. ground (arith, waits-erase_wait t k r.registrations);
        })
]

take_pending-Shrinks : (r : Runtime) → Shrinks r (take_pending r)
unfolding take_pending
take_pending-Shrinks r = record {
  same_next = refl;
  no_more = λ t. omega (arith, waits-append t r.moving r.pending);
}

register_first-Shrinks :
    (ok : Bool) (ws : List Wait) (r : Runtime) → r.moving ≡ ws → Shrinks r (register_first ok ws r)
unfolding register_first
register_first-Shrinks ok [] r e = record { same_next = refl; no_more = λ t. omega arith }
register_first-Shrinks true (w ∷ ws) r e = record {
  same_next = refl;
  no_more = λ t. ground (arith, ap (waits t) e, waits-erase_wait t w.token r.registrations);
}
register_first-Shrinks false (w ∷ ws) r e = record {
  same_next = refl;
  no_more = λ t. omega (arith, ap (waits t) e, flights-append t r.resuming ((w, true) ∷ []));
}

register_next-Shrinks : (ok : Bool) (r : Runtime) → Shrinks r (register_next ok r)
unfolding register_next
register_next-Shrinks ok r = register_first-Shrinks ok r.moving r refl

ready-Shrinks : (k : ℕ) (r : Runtime) → Shrinks r (ready k r)
unfolding ready
ready-Shrinks k r = elim (Option-cases (find_wait k r.registrations)) [
  | inl e ↦ rw (e, ready) (record { same_next = refl; no_more = λ t. omega arith })
  | inr (w, e) ↦
      rw (e, ready)
        (record {
          same_next = refl;
          no_more = λ t. ground (
            arith,
            waits-erase_wait t k r.registrations,
            flights-append t r.resuming ((w, false) ∷ []),
            found-waits k r.registrations w e,
          );
        })
]

expire_timed_out-Shrinks : (now : ℕ) (r : Runtime) → Shrinks r (expire_timed_out now r)
unfolding expire_timed_out
expire_timed_out-Shrinks now r = record {
  same_next = refl;
  no_more = λ t. omega (
    arith,
    waits-expired t now r.registrations,
    flights-append t r.resuming (all_timed_out (expired now r.registrations)),
    flights-all_timed_out t (expired now r.registrations),
  );
}

resume_first-Shrinks :
    (ws : List (Wait × Bool)) (r : Runtime) → r.resuming ≡ ws → Shrinks r (resume_first ws r)
unfolding resume_first
resume_first-Shrinks [] r e = record { same_next = refl; no_more = λ t. omega arith }
resume_first-Shrinks ((w, b) ∷ rest) r e = elim (Bool-cases (elem w.token r.cancelled)) [
  | inl gone ↦
      rw (gone, resume_first)
        (record { same_next = refl; no_more = λ t. omega (arith, ap (flights t) e) })
  | inr alive ↦
      rw (alive, resume_first)
        (record {
          same_next = refl;
          no_more =
              λ t. omega (arith, ap (flights t) e, times-append t r.resumed ((w.token, b) ∷ []));
        })
]

resume_ready-Shrinks : (r : Runtime) → Shrinks r (resume_ready r)
unfolding resume_ready
resume_ready-Shrinks r = resume_first-Shrinks r.resuming r refl

set_cancelled-Shrinks : (k : ℕ) (r : Runtime) → Shrinks r (set_cancelled k r)
unfolding set_cancelled
set_cancelled-Shrinks k r = record { same_next = refl; no_more = λ t. omega arith }

pub Step-IsSound : {r s : Runtime} → Step r s → IsSound r → IsSound s
Step-IsSound (enqueues {r} fd deadline small) v = enqueue-IsSound fd deadline r small v
Step-IsSound (cancels_pending {r} t) v = Shrinks-IsSound (cancel_pending-Shrinks t r) v
Step-IsSound (cancels_registration {r} t) v = Shrinks-IsSound (cancel_registration-Shrinks t r) v
Step-IsSound (sets_cancelled {r} t) v = Shrinks-IsSound (set_cancelled-Shrinks t r) v
Step-IsSound (takes_pending {r}) v = Shrinks-IsSound (take_pending-Shrinks r) v
Step-IsSound (registers {r} ok) v = Shrinks-IsSound (register_next-Shrinks ok r) v
Step-IsSound (is_ready {r} t) v = Shrinks-IsSound (ready-Shrinks t r) v
Step-IsSound (expires {r} now) v = Shrinks-IsSound (expire_timed_out-Shrinks now r) v
Step-IsSound (resumes {r}) v = Shrinks-IsSound (resume_ready-Shrinks r) v

pub started-IsSound : IsSound started
started-IsSound = record { once = λ t. omega arith; unused = λ t h. refl }

pub Runs-IsSound : {r s : Runtime} → Runs r s → IsSound r → IsSound s
Runs-IsSound end v = v
Runs-IsSound (next step rest) v = Runs-IsSound rest (Step-IsSound step v)

-- In every interleaving of the threads, from the start of the runtime and while the token counter
-- does not wrap, a wait is resumed at most once.
pub resumed_once : {r : Runtime} → Runs started r → (t : ℕ) → times t r.resumed ≤ 1
resumed_once run t = let v = Runs-IsSound run started-IsSound in omega (arith, v.once t)
