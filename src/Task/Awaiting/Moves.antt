-- ===== src/Task/Awaiting/Moves.antt =====
-- src/include/task.h: the body's own steps keep what holds of the two coroutines.
use hxrpc.Common.{ℕ, ◌≡◌, refl, subst, ◌∙◌, Bool, true, false, Option, none, some, arith}
use hxrpc.Task.{Outcome, returned, threw, Promise, finish, mark_done}
use hxrpc.Task.Ownership.{set}
use hxrpc.Task.Awaiting.{
  Body, running, waiting, finished, marked, Waiter, suspended, reads, resumes, System, pause,
  complete, mark,
}
use hxrpc.Task.Awaiting.Invariant.{Holds, Unread, ReadOf, Registered, Costs, IsSound}

module _ {A E : Type 0} where
  module _ (p : Promise A E) (pending came : ℕ → Bool) (n : ℕ) (o : Option (Outcome A E)) where
    -- The states that differ in where the two coroutines are.
    abbrev pub at_places : Body → Waiter A E → System A E
    at_places b w = record {
      promise = p;
      body = b;
      waiter = w;
      pending = pending;
      came = came;
      next_wait = n;
      outcome = o;
    }

    pause-Costs :
        (w : Waiter A E) → Costs w (at_places running w) → Costs w (pause (at_places running w))
    pause-Costs suspended a = record {
      wait = a.wait;
      old = omega (arith, a.old);
      not_come = a.not_come;
      cancelled = ground (arith, a.cancelled, a.old);
    }
    pause-Costs (resumes r) a = record {
      wait = a.wait;
      old = omega (arith, a.old);
      not_come = a.not_come;
      cancelled = ground (arith, a.cancelled, a.old);
    }
    pause-Costs w a = tt

    pause-Registered :
        (w : Waiter A E)
        → Registered w running p.continuation
        → Registered w (waiting n) p.continuation
    pause-Registered suspended r = (r.0, cc)
    pause-Registered (resumes x) r = absurd (cc)
    pause-Registered w r = r

    pub pause-IsSound :
        (w : Waiter A E) → IsSound (at_places running w) → IsSound (pause (at_places running w))
    pause-IsSound w v = record {
      unread = v.unread;
      read_of = v.read_of;
      ended_with = v.ended_with;
      registered = pause-Registered w v.registered;
      costs = pause-Costs w v.costs;
      accounted = λ k f. ground (arith, v.accounted k);
      not_come = λ k f. ground (arith, v.not_come k, v.later k);
      later = λ k h. v.later k (omega arith);
      numbered = λ k f. ground (arith, v.numbered k);
      awaited = ground arith;
    }

    -- A wait that comes where the body stands at it.
    abbrev pub woken : ℕ → Waiter A E → System A E
    woken k w = record (at_places running w) {
      pending = set k false pending;
      came = set k true came;
    }

    woken-Costs :
        (k : ℕ) (w : Waiter A E)
        → pending k ≡ true
        → Costs w (at_places (waiting k) w)
        → Costs w (woken k w)
    woken-Costs k suspended e a = record {
      wait = a.wait;
      old = a.old;
      not_come = ground (arith, a.not_come, a.cancelled);
      cancelled = ground (arith, a.cancelled);
    }
    woken-Costs k (resumes r) e a = record {
      wait = a.wait;
      old = a.old;
      not_come = ground (arith, a.not_come, a.cancelled);
      cancelled = ground (arith, a.cancelled);
    }
    woken-Costs k w e a = tt

    woken-Registered :
        (k : ℕ) (w : Waiter A E)
        → Registered w (waiting k) p.continuation
        → Registered w running p.continuation
    woken-Registered k suspended r = (r.0, cc)
    woken-Registered k (resumes x) r = absurd (cc)
    woken-Registered k w r = r

    pub woken-IsSound :
        (k : ℕ) (w : Waiter A E) → IsSound (at_places (waiting k) w) → IsSound (woken k w)
    woken-IsSound k w v = record {
      unread = v.unread;
      read_of = v.read_of;
      ended_with = v.ended_with;
      registered = woken-Registered k w v.registered;
      costs = woken-Costs k w v.awaited v.costs;
      accounted = λ j f. ground (arith, v.accounted j);
      not_come = λ j f. ground (arith, v.not_come j);
      later = λ j h. ground (arith, v.later j, v.numbered k v.awaited);
      numbered = λ j f. ground (arith, v.numbered j);
      awaited = tt;
    }

    -- Whatever else moves the body leaves the waits as they are.
    pub moved-Costs :
        (b c : Body) (w : Waiter A E) (q : Promise A E) (x : Option (Outcome A E))
        → Costs w (at_places b w)
        → Costs w (record (at_places c w) { promise = q; outcome = x })
    moved-Costs b c suspended q x a = record {
      wait = a.wait;
      old = a.old;
      not_come = a.not_come;
      cancelled = a.cancelled;
    }
    moved-Costs b c (resumes r) q x a = record {
      wait = a.wait;
      old = a.old;
      not_come = a.not_come;
      cancelled = a.cancelled;
    }
    moved-Costs b c w q x a = tt

    complete-Unread :
        (w : Waiter A E) (x : Outcome A E)
        → o ≡ none
        → Unread w o p
        → Unread w (some x) (finish x p)
    unfolding finish
    complete-Unread (reads r) x e u = tt
    complete-Unread (resumes r) x e u = tt
    complete-Unread w (returned y) e u =
        let h : Holds none p = subst (λ x. Holds x p) e u in (refl, h.1)
    complete-Unread w (threw y) e u = refl

    complete-ReadOf : (w : Waiter A E) (x : Outcome A E) → o ≡ none → ReadOf w o → ReadOf w (some x)
    complete-ReadOf (reads r) x e (y, f, g) = absurd (cc)
    complete-ReadOf (resumes r) x e (y, f, g) = absurd (cc)
    complete-ReadOf w x e u = tt

    complete-Registered :
        (w : Waiter A E) (x : Outcome A E)
        → Registered w running p.continuation
        → Registered w finished (finish x p).continuation
    unfolding finish
    complete-Registered suspended (returned y) r = (r.0, cc)
    complete-Registered suspended (threw y) r = (r.0, cc)
    complete-Registered (resumes z) x r = absurd (cc)
    complete-Registered w (returned y) r = r
    complete-Registered w (threw y) r = r

    done-finish : (x : Outcome A E) → (finish x p).done ≡ p.done
    unfolding finish
    done-finish (returned y) = refl
    done-finish (threw y) = refl

    pub complete-IsSound :
        (w : Waiter A E) (x : Outcome A E)
        → IsSound (at_places running w)
        → IsSound (complete x (at_places running w))
    unfolding complete
    complete-IsSound w x v = record {
      unread = complete-Unread w x v.ended_with.0 v.unread;
      read_of = complete-ReadOf w x v.ended_with.0 v.read_of;
      ended_with = (x, refl, done-finish x ∙ v.ended_with.1);
      registered = complete-Registered w x v.registered;
      costs = moved-Costs running finished w (finish x p) (some x) v.costs;
      accounted = λ k f. absurd (cc (v.accounted k f));
      not_come = v.not_come;
      later = v.later;
      numbered = v.numbered;
      awaited = tt;
    }

    mark-Holds : (x : Option (Outcome A E)) → Holds x p → Holds x (mark_done p)
    unfolding mark_done
    mark-Holds none h = h
    mark-Holds (some (returned y)) h = h
    mark-Holds (some (threw y)) h = h

    mark-Unread : (w : Waiter A E) → Unread w o p → Unread w o (mark_done p)
    unfolding mark_done
    mark-Unread (reads r) u = tt
    mark-Unread (resumes r) u = tt
    mark-Unread w u = mark-Holds o u

    mark-Registered :
        (w : Waiter A E)
        → Registered w finished p.continuation
        → Registered w marked (mark_done p).continuation
    unfolding mark_done
    mark-Registered suspended r = (r.0, cc)
    mark-Registered (resumes z) r = absurd (cc)
    mark-Registered w r = r

    pub mark-IsSound :
        (w : Waiter A E) → IsSound (at_places finished w) → IsSound (mark (at_places finished w))
    unfolding mark mark_done
    mark-IsSound w v = record {
      unread = mark-Unread w v.unread;
      read_of = v.read_of;
      ended_with = (v.ended_with.0, v.ended_with.1, refl);
      registered = mark-Registered w v.registered;
      costs = moved-Costs finished marked w (mark_done p) o v.costs;
      accounted = λ k f. absurd (cc (v.accounted k f));
      not_come = v.not_come;
      later = v.later;
      numbered = v.numbered;
      awaited = tt;
    }
