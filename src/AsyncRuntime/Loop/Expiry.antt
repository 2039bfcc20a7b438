-- ===== src/AsyncRuntime/Loop/Expiry.antt =====
-- src/async_runtime.cc: the loop thread loses no wait, and completes one whose deadline has passed.
use hxrpc.AsyncRuntime.Once.{IsSound, Runs-IsSound, found-waits, flights}
use hxrpc.AsyncRuntime.Loop.Kept.{Kept}
use hxrpc.AsyncRuntime.Loop.Steps.{register_one-Runs, register_pending-Runs}
use hxrpc.AsyncRuntime.Loop.{
  first_ok, other_oks, register_one, register_all, register_pending, polled, handle_event,
  handle_events, resume_all, expire, run_round,
}
use hxrpc.AsyncRuntime.{
  Wait, Runtime, elem, find_wait, expired, all_timed_out, take_pending, register_next, ready,
  expire_timed_out, resume_ready, next, end, takes_pending, is_ready, resumes,
}
use hxrpc.Common.{
  ℕ, ◌≤◌, ◌≡◌, refl, sym, ap, subst, ◌∙◌, inl, inr, Bool, true, false, List, [], ◌∷◌, ◌++◌, ◌==◌,
  arith, Bool-cases, Option-cases, nat_eq,
}
use hxrpc.AsyncRuntime.Loop.Places.{
  In, In-expired, In-unexpired, Held, resume_ready_first, register_next_accepted,
  register_next_refused, apart, Placed, Placed-along, Placed-registered, Placed-completed,
  Placed-ready, Placed-pending, ready_some, ready_none,
}

module _ (w : Wait) where
  register_one-Held :
      (ok : Bool) (v : Wait) (ws : List Wait) (r : Runtime)
      → r.moving ≡ v ∷ ws
      → IsSound r
      → Held w r
      → Held w (register_one ok r)
        × ((register_one ok r).moving ≡ ws)
        × ((register_one ok r).pending ≡ r.pending)
  unfolding register_one
  register_one-Held true v ws r e s h =
      let (m, g, p, f, c) = register_next_accepted v ws r e in
      let before : Placed w r.pending (v ∷ ws) r.registrations r.completed =
        Placed-along w refl (sym e) refl refl h.place in
      (
        record {
          no_resuming = f ∙ h.no_resuming;
          place = Placed-along w p m g c (
              Placed-registered w v ws r.pending r.registrations r.completed (apart w v ws r s e)
                before);
        },
        m,
        p,
      )
  register_one-Held false v ws r e s h =
      let (m, g, p, f, c) = register_next_refused v ws r e h.no_resuming in
      let (f', c', p', m', g') = resume_ready_first v true [] (register_next false r) f in
      let before : Placed w r.pending (v ∷ ws) r.registrations r.completed =
        Placed-along w refl (sym e) refl refl h.place in
      (
        record {
          no_resuming = f';
          place =
              Placed-along w (p' ∙ p) (m' ∙ m) (g' ∙ g) (c' ∙ ap (◌∷◌ v.token) c)
                (Placed-completed w v ws r.pending r.registrations r.completed before);
        },
        m' ∙ m,
        p' ∙ p,
      )

  register_all-Held :
      (ws : List Wait) (oks : List Bool) (r : Runtime)
      → r.moving ≡ ws
      → IsSound r
      → Held w r
      → Held w (register_all ws oks r)
        × ((register_all ws oks r).moving ≡ [])
        × ((register_all ws oks r).pending ≡ r.pending)
  unfolding register_all
  register_all-Held [] oks r e s h = (h, e, refl)
  register_all-Held (v ∷ ws) oks r e s h =
      let (h', m, p) = register_one-Held (first_ok oks) v ws r e s h in
      let (h'', m', p') =
        register_all-Held ws (other_oks oks) (register_one (first_ok oks) r) m
          (Runs-IsSound (register_one-Runs (first_ok oks) r) s) h' in
      (h'', m', p' ∙ p)

  -- Between two rounds, or between two events: nothing is half registered.
  record Rests (r : Runtime) : Type 0 where
    sound : IsSound r
    held : Held w r
    no_moving : r.moving ≡ []

  -- The same, with nothing left to register.
  abbrev RestsIn : Runtime → Type 0
  RestsIn r = Rests r × (r.pending ≡ [])

  register_pending-Rests :
      (oks : List Bool) (r : Runtime) → Rests r → RestsIn (register_pending oks r)
  unfolding register_pending take_pending
  register_pending-Rests oks r v =
      let taken = take_pending r in
      let s = Runs-IsSound (next takes_pending end) v.sound in
      let h : Held w taken = record {
        no_resuming = v.held.no_resuming;
        place = Placed-pending w r.pending r.moving r.registrations r.completed v.held.place;
      } in
      let (h', m, p) = register_all-Held taken.moving oks taken refl s h in
      (
        record {
          sound = Runs-IsSound (register_pending-Runs oks r) v.sound;
          held = h';
          no_moving = m;
        },
        p,
      )

  event-Rests : (t : ℕ) (r : Runtime) → RestsIn r → RestsIn (resume_ready (ready t r))
  event-Rests t r (v, e) = elim (Option-cases (find_wait t r.registrations)) [
    | inl f ↦ subst RestsIn (sym (ready_none t r f v.held.no_resuming)) (v, e)
    | inr (x, f) ↦
        let (q, c, p, m, g) = ready_some t x r f v.held.no_resuming in
        let (q', c', p', m', g') = resume_ready_first x false [] (ready t r) q in
        let token = (found-waits t r.registrations x f).0 in
        (
          record {
            sound = Runs-IsSound (next (is_ready t) (next resumes end)) v.sound;
            held = record {
              no_resuming = q';
              place = Placed-along w (p' ∙ p) (m' ∙ m) (g' ∙ g) (c' ∙ ap (◌∷◌ x.token) c) (
                  Placed-ready w t x r.pending r.moving r.registrations r.completed token
                    v.held.place);
            };
            no_moving = m' ∙ m ∙ v.no_moving;
          },
          p' ∙ p ∙ e,
        )
  ]

  handle_event-Rests :
      (t : ℕ) (oks : List Bool) (r : Runtime) → RestsIn r → RestsIn (handle_event t oks r)
  unfolding handle_event
  handle_event-Rests t oks r v = elim (Bool-cases (t == 0)) [
    | inl wake ↦ rw wake (register_pending-Rests oks r v.0)
    | inr other ↦ rw other (event-Rests t r v)
  ]

  handle_events-Rests :
      (es : List (ℕ × List Bool)) (r : Runtime) → RestsIn r → RestsIn (handle_events es r)
  unfolding handle_events
  handle_events-Rests [] r v = v
  handle_events-Rests ((t, oks) ∷ es) r v =
      handle_events-Rests es (handle_event t oks r) (handle_event-Rests t oks r v)

-- All that was due is completed, and nothing is lost.
record Resumes (ws : List Wait) (r s : Runtime) : Type 0 where
  no_resuming : s.resuming ≡ []
  same_pending : s.pending ≡ r.pending
  same_moving : s.moving ≡ r.moving
  same_registrations : s.registrations ≡ r.registrations
  kept : (t : ℕ) → elem t r.completed ≡ true → elem t s.completed ≡ true
  all : (w : Wait) → In w ws → elem w.token s.completed ≡ true

resume_all-Resumes :
    (ws : List Wait) (r : Runtime)
    → r.resuming ≡ all_timed_out ws
    → Resumes ws r (resume_all (all_timed_out ws) r)
unfolding resume_all
resume_all-Resumes [] r e = record {
  no_resuming = e;
  same_pending = refl;
  same_moving = refl;
  same_registrations = refl;
  kept = λ t h. h;
  all = λ w i. absurd i;
}
resume_all-Resumes (x ∷ ws) r e =
    let (q, c, p, m, g) = resume_ready_first x true (all_timed_out ws) r e in
    let later = resume_all-Resumes ws (resume_ready r) q in
    record {
      no_resuming = later.no_resuming;
      same_pending = later.same_pending ∙ p;
      same_moving = later.same_moving ∙ m;
      same_registrations = later.same_registrations ∙ g;
      kept = λ t h. later.kept t (ground (arith, c));
      all = λ w i. elim i [
        | inl same ↦ later.kept w.token (ground (arith, c, ap (λ v. v.token) same))
        | inr there ↦ later.all w there
      ];
    }

module _ (w : Wait) where
  expire-completes :
      (now : ℕ) (r : Runtime)
      → RestsIn w r
      → w.deadline ≤ now
      → elem w.token (expire now r).completed ≡ true
  unfolding expire expire_timed_out
  expire-completes now r (v, none_pending) due =
      let ws = expired now r.registrations in
      let start = expire_timed_out now r in
      let resuming : start.resuming ≡ all_timed_out ws =
        ap (λ l. l ++ all_timed_out ws) v.held.no_resuming in
      let s = resume_all-Resumes ws start resuming in
      subst (λ xs. elem w.token (resume_all xs start).completed ≡ true) (sym resuming)
        (elim v.held.place [
          | inl i ↦ absurd (subst (In w) none_pending i)
          | inr (inl i) ↦ absurd (subst (In w) v.no_moving i)
          | inr (inr (inl i)) ↦ elim (In-expired w now r.registrations i) [
            | inl j ↦ s.all w j
            | inr j ↦ absurd (omega (arith, In-unexpired w now r.registrations j))
          ]
          | inr (inr (inr c)) ↦ s.kept w.token c
        ])

  -- Between two rounds, with nothing to resume, a wait that was not lost is held.
  Kept-Held : {r : Runtime} → r.resuming ≡ [] → Kept w r → Held w r
  Kept-Held e k = record {
    no_resuming = e;
    place = elim k.place [
      | inl i ↦ inl i
      | inr (inl i) ↦ inr (inl i)
      | inr (inr (inl i)) ↦ inr (inr (inl i))
      | inr (inr (inr (inl n))) ↦ absurd (omega (arith, ap (flights w.token) e))
      | inr (inr (inr (inr c))) ↦ inr (inr (inr c))
    ];
  }

  -- A round of the loop whose poll does not fail completes every wait that is due and not lost.
  pub run_round-completes :
      {r : Runtime}
      → IsSound r
      → r.moving ≡ []
      → r.resuming ≡ []
      → Kept w r
      → (oks : List Bool) (events : List (ℕ × List Bool)) (now : ℕ) → w.deadline ≤ now
      → elem w.token (run_round (record { oks = oks; poll = polled events; now = now }) r).completed
        ≡ true
  unfolding run_round
  run_round-completes {r} sound moving resuming k oks events now due =
      let v : Rests w r = record {
        sound = sound;
        held = Kept-Held resuming k;
        no_moving = moving;
      } in
      expire-completes now (handle_events events (register_pending oks r))
        (handle_events-Rests w events (register_pending oks r) (register_pending-Rests w oks r v))
        due
