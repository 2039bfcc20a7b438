-- ===== src/AsyncRuntime/Loop/Kept.antt =====
-- src/async_runtime.cc: where a wait that was enqueued is, over the steps of all threads.
use hxrpc.AsyncRuntime.Once.{
  IsSound, Step-IsSound, flights, found-waits, flights-append, flights-all_timed_out,
}
use hxrpc.AsyncRuntime.Loop.Places.{In, In-append, In-waits, In-erase_wait, In-expired, apart}
use hxrpc.AsyncRuntime.{
  Wait, Runtime, elem, find_wait, erase_wait, expired, enqueue, cancel_pending, cancel_registration,
  set_cancelled, take_pending, register_first, register_next, ready, all_timed_out,
  expire_timed_out, resume_first, resume_ready, Step, enqueues, cancels_pending,
  cancels_registration, sets_cancelled, takes_pending, registers, is_ready, expires, resumes, Runs,
  end, next,
}
use hxrpc.Common.{
  ℕ, ◌≤◌, ◌≡◌, refl, ap, ◌⊎◌, inl, inr, Bool, true, false, List, [], ◌∷◌, some, none, ◌==◌, arith,
  Bool-cases, Option-cases, ℕ_discrete, subst,
}

-- Where a wait is that was enqueued, of the parts of a runtime.
abbrev KeptIn : Wait → List Wait → List Wait → List Wait → List (Wait × Bool) → List ℕ → Type 0
KeptIn w pending moving registrations resuming completed =
    In w pending
    ⊎ In w moving
    ⊎ In w registrations
    ⊎ (1 ≤ flights w.token resuming)
    ⊎ (elem w.token completed ≡ true)

pub record Kept (w : Wait) (r : Runtime) : Type 0 where
  pub place : KeptIn w r.pending r.moving r.registrations r.resuming r.completed

-- A wait that stands in a list is found there, or another one with its token.
find_wait-In : (w : Wait) (ws : List Wait) → In w ws → (x : Wait) × (find_wait w.token ws ≡ some x)
find_wait-In w [] i = absurd i
find_wait-In w (x ∷ ws) i = elim (Bool-cases (x.token == w.token)) [
  | inl same ↦ (x, rw same)
  | inr other ↦ elim i [
    | inl e ↦ absurd (ground (arith, ap (λ v. v.token) e))
    | inr j ↦ let (y, f) = find_wait-In w ws j in (y, rw other f)
  ]
]

module _ (w : Wait) where
  erased-cases : (t : ℕ) (ws : List Wait) → In w ws → In w (erase_wait t ws) ⊎ (w.token ≡ t)
  erased-cases t ws i = elim (ℕ_discrete w.token t) [
    | yes q ↦ inr q
    | no q ↦ inl (In-erase_wait w t ws i q)
  ]

  -- Where nothing is found under a token, an erasure takes nothing away.
  erased_none : (t : ℕ) (ws : List Wait) → find_wait t ws ≡ none → In w ws → In w (erase_wait t ws)
  erased_none t ws e i = elim (erased-cases t ws i) [
    | inl j ↦ j
    | inr q ↦
        let (x, f) = find_wait-In w ws i in
        absurd (cc (subst (λ a. find_wait a ws ≡ some x) q f, e))
  ]

  elem-cons : (t : ℕ) (ts : List ℕ) → elem w.token ts ≡ true → elem w.token (t ∷ ts) ≡ true
  elem-cons t ts h = ground arith

  elem-head : (t : ℕ) (ts : List ℕ) → w.token ≡ t → elem w.token (t ∷ ts) ≡ true
  elem-head t ts h = ground arith

  enqueue-Kept : (fd deadline : ℕ) (r : Runtime) → Kept w r → Kept w (enqueue fd deadline r)
  unfolding enqueue
  enqueue-Kept fd deadline r k = record {
    place = elim k.place [ inl i ↦ inl (In-append w r.pending _ (inl i)) | inr x ↦ inr x ];
  }

  cancel_pending-Kept : (t : ℕ) (r : Runtime) → Kept w r → Kept w (cancel_pending t r)
  unfolding cancel_pending
  cancel_pending-Kept t r k = elim (Option-cases (find_wait t r.pending)) [
    | inl e ↦
        rw (e, cancel_pending)
          (record {
            place = elim k.place [ inl i ↦ inl (erased_none t r.pending e i) | inr x ↦ inr x ];
          })
    | inr (x, e) ↦
        rw (e, cancel_pending)
          (record {
            place = elim k.place [
              | inl i ↦ elim (erased-cases t r.pending i) [
                | inl j ↦ inl j
                | inr q ↦ inr (inr (inr (inr (elem-head t r.completed q))))
              ]
              | inr (inl i) ↦ inr (inl i)
              | inr (inr (inl i)) ↦ inr (inr (inl i))
              | inr (inr (inr (inl n))) ↦ inr (inr (inr (inl n)))
              | inr (inr (inr (inr c))) ↦ inr (inr (inr (inr (elem-cons t r.completed c))))
            ];
          })
  ]

  cancel_registration-Kept : (t : ℕ) (r : Runtime) → Kept w r → Kept w (cancel_registration t r)
  unfolding cancel_registration
  cancel_registration-Kept t r k = elim (Option-cases (find_wait t r.registrations)) [
    | inl e ↦ rw (e, cancel_registration) k
    | inr (x, e) ↦
        rw (e, cancel_registration)
          (record {
            place = elim k.place [
              | inl i ↦ inl i
              | inr (inl i) ↦ inr (inl i)
              | inr (inr (inl i)) ↦ elim (erased-cases t r.registrations i) [
                | inl j ↦ inr (inr (inl j))
                | inr q ↦ inr (inr (inr (inr (elem-head t r.completed q))))
              ]
              | inr (inr (inr (inl n))) ↦ inr (inr (inr (inl n)))
              | inr (inr (inr (inr c))) ↦ inr (inr (inr (inr (elem-cons t r.completed c))))
            ];
          })
  ]

  take_pending-Kept : (r : Runtime) → Kept w r → Kept w (take_pending r)
  unfolding take_pending
  take_pending-Kept r k = record {
    place = elim k.place [
      | inl i ↦ inr (inl (In-append w r.moving r.pending (inr i)))
      | inr (inl i) ↦ inr (inl (In-append w r.moving r.pending (inl i)))
      | inr (inr x) ↦ inr (inr x)
    ];
  }

  register_first-Kept :
      (ok : Bool) (ws : List Wait) (r : Runtime)
      → r.moving ≡ ws
      → IsSound r
      → Kept w r
      → Kept w (register_first ok ws r)
  unfolding register_first
  register_first-Kept ok [] r e s k = k
  register_first-Kept true (v ∷ ws) r e s k = record {
    place = elim k.place [
      | inl i ↦ inl i
      | inr (inl i) ↦ elim (subst (In w) e i) [
        | inl same ↦ inr (inr (inl (inl same)))
        | inr j ↦ inr (inl j)
      ]
      | inr (inr (inl i)) ↦
          inr (inr (inl (inr (In-erase_wait w v.token r.registrations i (apart w v ws r s e i)))))
      | inr (inr (inr x)) ↦ inr (inr (inr x))
    ];
  }
  register_first-Kept false (v ∷ ws) r e s k =
      let both = flights-append w.token r.resuming ((v, true) ∷ []) in
      record {
        place = elim k.place [
          | inl i ↦ inl i
          | inr (inl i) ↦ elim (subst (In w) e i) [
            | inl same ↦ inr (inr (inr (inl (ground (arith, both, ap (λ x. x.token) same)))))
            | inr j ↦ inr (inl j)
          ]
          | inr (inr (inl i)) ↦ inr (inr (inl i))
          | inr (inr (inr (inl n))) ↦ inr (inr (inr (inl (omega (arith, both)))))
          | inr (inr (inr (inr c))) ↦ inr (inr (inr (inr c)))
        ];
      }

  ready-Kept : (t : ℕ) (r : Runtime) → Kept w r → Kept w (ready t r)
  unfolding ready
  ready-Kept t r k = elim (Option-cases (find_wait t r.registrations)) [
    | inl e ↦ rw (e, ready) k
    | inr (x, e) ↦
        let both = flights-append w.token r.resuming ((x, false) ∷ []) in
        let token = (found-waits t r.registrations x e).0 in
        rw (e, ready)
          (record {
            place = elim k.place [
              | inl i ↦ inl i
              | inr (inl i) ↦ inr (inl i)
              | inr (inr (inl i)) ↦ elim (erased-cases t r.registrations i) [
                | inl j ↦ inr (inr (inl j))
                | inr q ↦ inr (inr (inr (inl (ground (arith, both, token)))))
              ]
              | inr (inr (inr (inl n))) ↦ inr (inr (inr (inl (omega (arith, both)))))
              | inr (inr (inr (inr c))) ↦ inr (inr (inr (inr c)))
            ];
          })
  ]

  flights-expired :
      (now : ℕ) (ws : List Wait)
      → In w (expired now ws)
      → 1 ≤ flights w.token (all_timed_out (expired now ws))
  flights-expired now ws i =
      omega (arith, flights-all_timed_out w.token (expired now ws), In-waits w (expired now ws) i)

  expire_timed_out-Kept : (now : ℕ) (r : Runtime) → Kept w r → Kept w (expire_timed_out now r)
  unfolding expire_timed_out
  expire_timed_out-Kept now r k =
      let both = flights-append w.token r.resuming (all_timed_out (expired now r.registrations)) in
      record {
        place = elim k.place [
          | inl i ↦ inl i
          | inr (inl i) ↦ inr (inl i)
          | inr (inr (inl i)) ↦ elim (In-expired w now r.registrations i) [
            | inl due ↦
                inr (inr (inr (inl (omega (arith, both, flights-expired now r.registrations due)))))
            | inr early ↦ inr (inr (inl early))
          ]
          | inr (inr (inr (inl n))) ↦ inr (inr (inr (inl (omega (arith, both)))))
          | inr (inr (inr (inr c))) ↦ inr (inr (inr (inr c)))
        ];
      }

  resumed_place :
      (v : Wait) (b : Bool) (xs : List (Wait × Bool)) (r : Runtime)
      → r.resuming ≡ (v, b) ∷ xs
      → Kept w r
      → KeptIn w r.pending r.moving r.registrations xs (v.token ∷ r.completed)
  resumed_place v b xs r e k = elim k.place [
    | inl i ↦ inl i
    | inr (inl i) ↦ inr (inl i)
    | inr (inr (inl i)) ↦ inr (inr (inl i))
    | inr (inr (inr (inl n))) ↦ elim (ℕ_discrete w.token v.token) [
      | yes q ↦ inr (inr (inr (inr (elem-head v.token r.completed q))))
      | no q ↦ inr (inr (inr (inl (ground (arith, ap (flights w.token) e)))))
    ]
    | inr (inr (inr (inr c))) ↦ inr (inr (inr (inr (elem-cons v.token r.completed c))))
  ]

  resume_first-Kept :
      (xs : List (Wait × Bool)) (r : Runtime)
      → r.resuming ≡ xs
      → Kept w r
      → Kept w (resume_first xs r)
  unfolding resume_first
  resume_first-Kept [] r e k = k
  resume_first-Kept ((v, b) ∷ xs) r e k = elim (Bool-cases (elem v.token r.cancelled)) [
    | inl gone ↦ rw (gone, resume_first) (record { place = resumed_place v b xs r e k })
    | inr alive ↦ rw (alive, resume_first) (record { place = resumed_place v b xs r e k })
  ]

  Step-Kept : {r s : Runtime} → Step r s → IsSound r → Kept w r → Kept w s
  unfolding set_cancelled register_next resume_ready
  Step-Kept {r} (enqueues fd deadline small) v k = enqueue-Kept fd deadline r k
  Step-Kept {r} (cancels_pending t) v k = cancel_pending-Kept t r k
  Step-Kept {r} (cancels_registration t) v k = cancel_registration-Kept t r k
  Step-Kept (sets_cancelled t) v k = record { place = k.place }
  Step-Kept {r} takes_pending v k = take_pending-Kept r k
  Step-Kept {r} (registers ok) v k = register_first-Kept ok r.moving r refl v k
  Step-Kept {r} (is_ready t) v k = ready-Kept t r k
  Step-Kept {r} (expires now) v k = expire_timed_out-Kept now r k
  Step-Kept {r} resumes v k = resume_first-Kept r.resuming r refl k

  pub Runs-Kept : {r s : Runtime} → Runs r s → IsSound r → Kept w r → Kept w s
  Runs-Kept end v k = k
  Runs-Kept (next step rest) v k = Runs-Kept rest (Step-IsSound step v) (Step-Kept step v k)
