-- ===== src/AsyncRuntime/Loop/Places.antt =====
-- src/async_runtime.cc: where a wait is, over the single moves of the loop thread.
use hxrpc.AsyncRuntime.Once.{IsSound, waits}
use hxrpc.AsyncRuntime.{
  Wait, Runtime, elem, find_wait, erase_wait, expired, unexpired, register_next, ready,
  resume_ready,
}
use hxrpc.Common.{
  ℕ, ◌<◌, ◌≤◌, ◌≡◌, ◌≢◌, ap, ◌⊎◌, inl, inr, Bool, true, false, List, [], ◌∷◌, ◌++◌, some, none,
  ◌==◌, leb, arith, Bool-cases, nat_eq, ℕ_discrete,
}

-- A wait stands in a list.
abbrev pub In : Wait → List Wait → Type 0
In w [] = ⊥
In w (x ∷ xs) = (w ≡ x) ⊎ In w xs

pub In-append : (w : Wait) (a b : List Wait) → In w a ⊎ In w b → In w (a ++ b)
In-append w [] b (inr i) = i
In-append w [] b (inl i) = absurd i
In-append w (x ∷ a) b (inl (inl e)) = inl e
In-append w (x ∷ a) b (inl (inr i)) = inr (In-append w a b (inl i))
In-append w (x ∷ a) b (inr i) = inr (In-append w a b (inr i))

pub In-waits : (w : Wait) (ws : List Wait) → In w ws → 1 ≤ waits w.token ws
In-waits w (x ∷ ws) (inl e) = ground (arith, ap (λ v. v.token) e)
In-waits w (x ∷ ws) (inr i) = omega (arith, In-waits w ws i)
In-waits w [] i = absurd i

pub In-erase_wait :
    (w : Wait) (t : ℕ) (ws : List Wait) → In w ws → w.token ≢ t → In w (erase_wait t ws)
In-erase_wait w t (x ∷ ws) (inl e) ne = elim (Bool-cases (x.token == t)) [
  | inl same ↦ absurd (ground (arith, ap (λ v. v.token) e))
  | inr other ↦ rw other (inl e)
]
In-erase_wait w t (x ∷ ws) (inr i) ne = elim (Bool-cases (x.token == t)) [
  | inl same ↦ rw same (In-erase_wait w t ws i ne)
  | inr other ↦ rw other (inr (In-erase_wait w t ws i ne))
]
In-erase_wait w t [] i ne = absurd i

pub In-expired :
    (w : Wait) (now : ℕ) (ws : List Wait)
    → In w ws
    → In w (expired now ws) ⊎ In w (unexpired now ws)
In-expired w now (x ∷ ws) (inl e) = elim (Bool-cases (leb x.deadline now)) [
  | inl due ↦ rw due (inl (inl e))
  | inr early ↦ rw early (inr (inl e))
]
In-expired w now (x ∷ ws) (inr i) = elim (Bool-cases (leb x.deadline now)) [
  | inl due ↦ rw due (elim (In-expired w now ws i) [ inl j ↦ inl (inr j) | inr j ↦ inr j ])
  | inr early ↦ rw early (elim (In-expired w now ws i) [ inl j ↦ inl j | inr j ↦ inr (inr j) ])
]
In-expired w now [] i = absurd i

-- What is left has its deadline to come.
pub In-unexpired :
    (w : Wait) (now : ℕ) (ws : List Wait) → In w (unexpired now ws) → now < w.deadline
In-unexpired w now (x ∷ ws) i = elim (Bool-cases (leb x.deadline now)) [
  | inl due ↦ In-unexpired w now ws (rw due at i)
  | inr early ↦ elim (rw early at i) [
    | inl e ↦ ground (arith, ap (λ v. v.deadline) e)
    | inr j ↦ In-unexpired w now ws j
  ]
]
In-unexpired w now [] i = absurd i

-- Between the operations of the loop thread, with nothing half registered or half resumed: where a
-- wait is that was enqueued.
pub record Held (w : Wait) (r : Runtime) : Type 0 where
  pub no_resuming : r.resuming ≡ []
  pub place :
      In w r.pending ⊎ In w r.moving ⊎ In w r.registrations ⊎ (elem w.token r.completed ≡ true)

pub resume_ready_first :
    (w : Wait) (b : Bool) (xs : List (Wait × Bool)) (r : Runtime)
    → r.resuming ≡ (w, b) ∷ xs
    → ((resume_ready r).resuming ≡ xs)
      × ((resume_ready r).completed ≡ w.token ∷ r.completed)
      × ((resume_ready r).pending ≡ r.pending)
      × ((resume_ready r).moving ≡ r.moving)
      × ((resume_ready r).registrations ≡ r.registrations)
unfolding resume_ready
resume_ready_first w b xs r e = ground (arith, e)

pub register_next_accepted :
    (v : Wait) (ws : List Wait) (r : Runtime)
    → r.moving ≡ v ∷ ws
    → ((register_next true r).moving ≡ ws)
      × ((register_next true r).registrations ≡ v ∷ erase_wait v.token r.registrations)
      × ((register_next true r).pending ≡ r.pending)
      × ((register_next true r).resuming ≡ r.resuming)
      × ((register_next true r).completed ≡ r.completed)
unfolding register_next
register_next_accepted v ws r e = ground (arith, e)

pub register_next_refused :
    (v : Wait) (ws : List Wait) (r : Runtime)
    → r.moving ≡ v ∷ ws
    → r.resuming ≡ []
    → ((register_next false r).moving ≡ ws)
      × ((register_next false r).registrations ≡ r.registrations)
      × ((register_next false r).pending ≡ r.pending)
      × ((register_next false r).resuming ≡ (v, true) ∷ [])
      × ((register_next false r).completed ≡ r.completed)
unfolding register_next
register_next_refused v ws r e f = ground (arith, e, f)

-- A token does not stand in two places.
pub apart :
    (w v : Wait) (ws : List Wait) (r : Runtime)
    → IsSound r
    → r.moving ≡ v ∷ ws
    → In w r.registrations
    → w.token ≢ v.token
apart w v ws r s e i q =
    ground (arith, s.once w.token, In-waits w r.registrations i, ap (waits w.token) e)

-- Where a wait can be, of the parts of a runtime.
abbrev pub Placed : Wait → List Wait → List Wait → List Wait → List ℕ → Type 0
Placed w pending moving registrations completed =
    In w pending ⊎ In w moving ⊎ In w registrations ⊎ (elem w.token completed ≡ true)

pub Placed-along :
    (w : Wait) {p p' m m' g g' : List Wait} {c c' : List ℕ}
    → p' ≡ p
    → m' ≡ m
    → g' ≡ g
    → c' ≡ c
    → Placed w p m g c
    → Placed w p' m' g' c'
Placed-along w e f g h x = rw (e, f, g, h) x

module _ (w : Wait) where
  -- The first of the moving waits is registered, or completed.
  pub Placed-registered :
      (v : Wait) (ws pending registrations : List Wait) (completed : List ℕ)
      → (In w registrations → w.token ≢ v.token)
      → Placed w pending (v ∷ ws) registrations completed
      → Placed w pending ws (v ∷ erase_wait v.token registrations) completed
  Placed-registered v ws pending registrations completed ne (inl i) = inl i
  Placed-registered v ws pending registrations completed ne (inr (inl (inl e))) =
      inr (inr (inl (inl e)))
  Placed-registered v ws pending registrations completed ne (inr (inl (inr i))) = inr (inl i)
  Placed-registered v ws pending registrations completed ne (inr (inr (inl i))) =
      inr (inr (inl (inr (In-erase_wait w v.token registrations i (ne i)))))
  Placed-registered v ws pending registrations completed ne (inr (inr (inr c))) = inr (inr (inr c))

  pub Placed-completed :
      (v : Wait) (ws pending registrations : List Wait) (completed : List ℕ)
      → Placed w pending (v ∷ ws) registrations completed
      → Placed w pending ws registrations (v.token ∷ completed)
  Placed-completed v ws pending registrations completed (inl i) = inl i
  Placed-completed v ws pending registrations completed (inr (inl (inl e))) =
      inr (inr (inr (ground (arith, ap (λ x. x.token) e))))
  Placed-completed v ws pending registrations completed (inr (inl (inr i))) = inr (inl i)
  Placed-completed v ws pending registrations completed (inr (inr (inl i))) = inr (inr (inl i))
  Placed-completed v ws pending registrations completed (inr (inr (inr c))) =
      inr (inr (inr (ground (arith, c))))

  -- The wait that is ready is completed.
  pub Placed-ready :
      (t : ℕ) (x : Wait) (pending moving registrations : List Wait) (completed : List ℕ)
      → x.token ≡ t
      → Placed w pending moving registrations completed
      → Placed w pending moving (erase_wait t registrations) (x.token ∷ completed)
  Placed-ready t x pending moving registrations completed e (inl i) = inl i
  Placed-ready t x pending moving registrations completed e (inr (inl i)) = inr (inl i)
  Placed-ready t x pending moving registrations completed e (inr (inr (inl i))) =
      elim (ℕ_discrete w.token t) [
        | yes q ↦ inr (inr (inr (ground arith)))
        | no q ↦ inr (inr (inl (In-erase_wait w t registrations i q)))
      ]
  Placed-ready t x pending moving registrations completed e (inr (inr (inr c))) =
      inr (inr (inr (ground (arith, c))))

  abbrev pub PlacedIn : Runtime → Type 0
  PlacedIn r = Placed w r.pending r.moving r.registrations r.completed

  -- The pending waits are taken over.
  pub Placed-pending :
      (pending moving registrations : List Wait) (completed : List ℕ)
      → Placed w pending moving registrations completed
      → Placed w [] (moving ++ pending) registrations completed
  Placed-pending pending moving registrations completed (inl i) =
      inr (inl (In-append w moving pending (inr i)))
  Placed-pending pending moving registrations completed (inr (inl i)) =
      inr (inl (In-append w moving pending (inl i)))
  Placed-pending pending moving registrations completed (inr (inr x)) = inr (inr x)

pub ready_some :
    (t : ℕ) (x : Wait) (r : Runtime)
    → find_wait t r.registrations ≡ some x
    → r.resuming ≡ []
    → ((ready t r).resuming ≡ (x, false) ∷ [])
      × ((ready t r).completed ≡ r.completed)
      × ((ready t r).pending ≡ r.pending)
      × ((ready t r).moving ≡ r.moving)
      × ((ready t r).registrations ≡ erase_wait t r.registrations)
unfolding ready
ready_some t x r e f = ground (arith, e, f)

-- An event of a token that is not registered does nothing.
pub ready_none :
    (t : ℕ) (r : Runtime)
    → find_wait t r.registrations ≡ none
    → r.resuming ≡ []
    → resume_ready (ready t r) ≡ r
unfolding ready resume_ready
ready_none t r e f = rw (e, ready) (rw (f, resume_ready))
