-- ===== src/Task/Awaiting/Meetings.antt =====
-- src/include/task.h: the steps at which a task and the coroutine that awaits it meet keep what
-- holds of the two.
use hxrpc.Common.{
  ℕ, ◌≡◌, refl, subst, sym, ◌∙◌, Option-cases, Bool-cases, ℕ_discrete, inl, inr, Bool, true, false,
  Option, none, some, arith,
}
use hxrpc.Task.{Outcome, returned, threw, Promise, ended, await_suspend, await_resume}
use hxrpc.Task.Awaiting.{
  Body, running, waiting, finished, marked, at_end, Waiter, before, unready, suspended, resumes,
  System, wake, hand_over, check, suspend,
}
use hxrpc.Task.Awaiting.Invariant.{Holds, EndedWith, IsSound}
use hxrpc.Task.Awaiting.Moves.{at_places, moved-Costs, woken-IsSound}
use hxrpc.Task.Ownership.{set}

module _ {A E : Type 0} (moved : A → A) where
  -- await_resume gives the outcome, and leaves the rest of the promise.
  await_resume-Holds :
      (p : Promise A E) (x : Outcome A E)
      → Holds (some x) p
      → ((await_resume moved p).0 ≡ ended x)
        × ((await_resume moved p).1.done ≡ p.done)
        × ((await_resume moved p).1.continuation ≡ p.continuation)
  unfolding await_resume
  await_resume-Holds p (returned v) h = ground arith
  await_resume-Holds p (threw e) h = ground arith

  suspend-Holds :
      (p : Promise A E) (c : ℕ) (o : Option (Outcome A E))
      → Holds o p
      → Holds o (record p { continuation = some c })
  suspend-Holds p c none h = h
  suspend-Holds p c (some (returned y)) h = h
  suspend-Holds p c (some (threw y)) h = h

  done-outcome :
      (b : Body) (o : Option (Outcome A E)) (d : Bool)
      → EndedWith b o d
      → d ≡ true
      → (x : Outcome A E) × (o ≡ some x)
  done-outcome running o d h e = absurd (cc)
  done-outcome (waiting k) o d h e = absurd (cc)
  done-outcome finished o d h e = absurd (cc)
  done-outcome marked o d (x, f, g) e = (x, f)
  done-outcome at_end o d (x, f, g) e = (x, f)

  module _ (handle continuation : ℕ) (p : Promise A E) (pending came : ℕ → Bool) (n : ℕ)
      (o : Option (Outcome A E)) where
    abbrev here : Body → Waiter A E → System A E
    here = at_places p pending came n o

    pub hand_over-IsSound :
        (w : Waiter A E)
        → IsSound (here marked w)
        → IsSound (hand_over handle continuation moved (here marked w))
    unfolding hand_over
    hand_over-IsSound suspended v = elim (Option-cases p.continuation) [
      | inl e ↦ absurd (v.registered.0 e)
      | inr (c, e) ↦
          let (x, f, d) = v.ended_with in
          let (r, same_done, same) = await_resume-Holds p x (subst (λ y. Holds y p) f v.unread) in
          rw (e, hand_over)
            (record {
              unread = tt;
              read_of = (x, f, r);
              ended_with = (x, f, same_done ∙ d);
              registered = refl;
              costs = record {
                wait = v.costs.wait;
                old = v.costs.old;
                not_come = v.costs.not_come;
                cancelled = v.costs.cancelled;
              };
              accounted = λ k f. absurd (cc (v.accounted k f));
              not_come = v.not_come;
              later = v.later;
              numbered = v.numbered;
              awaited = tt;
            })
    ]
    hand_over-IsSound (resumes r) v = absurd (cc (v.registered))
    hand_over-IsSound w v =
        rw (v.registered, hand_over)
          (record {
            unread = v.unread;
            read_of = v.read_of;
            ended_with = v.ended_with;
            registered = v.registered;
            costs = moved-Costs p pending came n o marked at_end w p o v.costs;
            accounted = λ k f. absurd (cc (v.accounted k f));
            not_come = v.not_come;
            later = v.later;
            numbered = v.numbered;
            awaited = tt;
          })

    suspend-IsSound :
        (k : ℕ)
        → IsSound (here (waiting k) unready)
        → IsSound (record (here running suspended) {
          promise = record p { continuation = some continuation };
          pending = set k false pending;
        })
    suspend-IsSound k v = record {
      unread = suspend-Holds p continuation o v.unread;
      read_of = tt;
      ended_with = v.ended_with;
      registered = (cc, cc);
      costs = record {
        wait = k;
        old = v.numbered k v.awaited;
        not_come = v.not_come k v.awaited;
        cancelled = ground arith;
      };
      accounted = λ j f. ground (arith, v.accounted j);
      not_come = λ j f. ground (arith, v.not_come j);
      later = v.later;
      numbered = λ j f. ground (arith, v.numbered j);
      awaited = tt;
    }

    pub check-IsSound :
        (b : Body)
        → IsSound (here b before)
        → IsSound (check handle continuation moved (here b before))
    unfolding check
    check-IsSound b v = elim (Bool-cases p.done) [
      | inr e ↦ simp (e) (record {
        unread = v.unread;
        read_of = tt;
        ended_with = v.ended_with;
        registered = v.registered;
        costs = tt;
        accounted = v.accounted;
        not_come = v.not_come;
        later = v.later;
        numbered = v.numbered;
        awaited = v.awaited;
      })
      | inl e ↦
          let (x, f) = done-outcome b o p.done v.ended_with e in
          let (r, same_done, same) = await_resume-Holds p x (subst (λ y. Holds y p) f v.unread) in
          simp (e) (record {
            unread = tt;
            read_of = (x, f, r);
            ended_with = subst (λ d. EndedWith b o d) (sym same_done) v.ended_with;
            registered = same ∙ v.registered;
            costs = tt;
            accounted = v.accounted;
            not_come = v.not_come;
            later = v.later;
            numbered = v.numbered;
            awaited = v.awaited;
          })
    ]

    pub woken_at-IsSound :
        (b : Body) (w : Waiter A E) (k : ℕ) {t : System A E}
        → wake k (here b w) ≡ some t
        → IsSound (here b w)
        → IsSound t
    unfolding wake
    woken_at-IsSound (waiting j) w k e v = elim (ℕ_discrete j k) [
      | yes q ↦
          subst IsSound (ground arith)
            (woken-IsSound p pending came n o k w (subst (λ i. IsSound (here (waiting i) w)) q v))
      | no q ↦ absurd (ground arith)
    ]
    woken_at-IsSound b w k e v = absurd (cc)

    pub suspended_at-IsSound :
        (b : Body) {t : System A E}
        → suspend handle continuation moved (here b unready) ≡ some t
        → IsSound (here b unready)
        → IsSound t
    unfolding suspend await_suspend
    suspended_at-IsSound (waiting k) e v = subst IsSound (cc) (suspend-IsSound k v)
    suspended_at-IsSound b e v = absurd (cc)
