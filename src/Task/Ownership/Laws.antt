-- ===== src/Task/Ownership/Laws.antt =====
-- src/include/task.h: every frame has one owner, and is destroyed once.
use hxrpc.Common.{
  ℕ, ◌≡◌, ◌≢◌, ◌↔◌, refl, ◌∙◌, sym, subst, ap, ℕ_discrete, Option, none, some, arith,
}
use hxrpc.Task.Ownership.{
  Object, task, awaiter, live, Store, empty_store, put, handle_of, destroy, move_construct,
  assign_from, co_await_lvalue, co_await_rvalue, owned, destruct, Act, starts, destructs, moves,
  assigns, awaits_lvalue, awaits_rvalue, perform, IsTask, Allowed, Runs, begin, then_does,
}
use hxrpc.Task.Ownership.Transfer.{
  IsOwned, Passes, start_coroutine-IsOwned, Passes-IsOwned, idle-IsOwned, destroy-IsOwned,
}

-- A Task owns its handle.
owned-handle_of : (o : Option Object) → IsTask o → owned o ≡ handle_of o
owned-handle_of (some (task h)) is = refl
owned-handle_of (some (awaiter h b)) is = absurd is
owned-handle_of none is = absurd is

apart_of_task : (a b : ℕ) (s : Store) → s.objects a ≡ none → IsTask (s.objects b) → a ≢ b
apart_of_task a b s new is e = subst IsTask (ap s.objects (sym e) ∙ new) is

-- A new object takes over what a Task owned.
handover :
    (a b : ℕ) (s t : Store)
    → s.objects a ≡ none
    → IsTask (s.objects b)
    → owned (t.objects a) ≡ handle_of (s.objects b)
    → owned (t.objects b) ≡ none
    → ((x : ℕ) → x ≢ a → x ≢ b → owned (t.objects x) ≡ owned (s.objects x))
    → ((h : ℕ) → t.frames h ≡ s.frames h)
    → t.next ≡ s.next
    → IsOwned s
    → IsOwned t
handover a b s t new is given left others frames next v =
    Passes-IsOwned
      (record {
        apart = apart_of_task a b s new is;
        free = ap owned new;
        given = given ∙ sym (owned-handle_of (s.objects b) is);
        left = left;
        others = others;
        same_frames = frames;
        same_next = next;
      })
      v

-- What an act leads to from a store.
abbrev Safely : Act → Store → Type 0
Safely act s = (t : Store) × (perform act s ≡ some t) × IsOwned t

destructs-IsOwned : (a : ℕ) (s : Store) → IsOwned s → Safely (destructs a) s
unfolding perform destruct
destructs-IsOwned a s v =
    let (t, destroyed, free, same) = destroy-IsOwned a none s refl v in
    (put a none t, rw (destroyed, destruct), free)

module _ (a b : ℕ) (s : Store) (v : IsOwned s) where
  moves-IsOwned : Allowed (moves a b) s → Safely (moves a b) s
  unfolding perform move_construct
  moves-IsOwned (new, is) =
      let apart = apart_of_task a b s new is in
      (
        _,
        refl,
        handover a b s _ new is (ground arith) (ground arith) (λ x p q. ground arith) (λ h. refl)
            refl v,
      )

  awaits_rvalue-IsOwned : Allowed (awaits_rvalue a b) s → Safely (awaits_rvalue a b) s
  unfolding perform co_await_rvalue
  awaits_rvalue-IsOwned (new, is) =
      let apart = apart_of_task a b s new is in
      (
        _,
        refl,
        handover a b s _ new is (ground arith) (ground arith) (λ x p q. ground arith) (λ h. refl)
            refl v,
      )

  awaits_lvalue-IsOwned : Allowed (awaits_lvalue a b) s → Safely (awaits_lvalue a b) s
  unfolding perform co_await_lvalue
  awaits_lvalue-IsOwned (new, is) = (_, refl, idle-IsOwned a _ s (ap owned new) refl v)

  assigns-IsOwned : Allowed (assigns a b) s → Safely (assigns a b) s
  unfolding perform assign_from
  assigns-IsOwned (is_a, is_b) = elim (ℕ_discrete a b) [
    | yes q ↦ (s, ground arith, v)
    | no apart ↦
        let (t, destroyed, free, same) = destroy-IsOwned a (some (task none)) s refl v in
        let d : destroy (handle_of (s.objects a)) s ≡ some t =
          ap (λ o. destroy o s) (sym (owned-handle_of (s.objects a) is_a)) ∙ destroyed in
        let is : IsTask (t.objects b) = subst (λ f. IsTask (f b)) (sym same) is_b in
        let after = put a (some (task (handle_of (t.objects b)))) (put b (some (task none)) t) in
        let passes : Passes a b (put a (some (task none)) t) after = record {
          apart = apart;
          free = ground arith;
          given = ground (arith, owned-handle_of (t.objects b) is);
          left = ground arith;
          others = λ x p q. ground arith;
          same_frames = λ h. refl;
          same_next = refl;
        } in
        (after, ground (arith, d), Passes-IsOwned passes free)
  ]

perform-IsOwned : (act : Act) (s : Store) → Allowed act s → IsOwned s → Safely act s
perform-IsOwned (starts a) s allowed v = unfold perform in start_coroutine-IsOwned a s allowed v
perform-IsOwned (destructs a) s allowed v = destructs-IsOwned a s v
perform-IsOwned (moves a b) s allowed v = moves-IsOwned a b s v allowed
perform-IsOwned (assigns a b) s allowed v = assigns-IsOwned a b s v allowed
perform-IsOwned (awaits_lvalue a b) s allowed v = awaits_lvalue-IsOwned a b s v allowed
perform-IsOwned (awaits_rvalue a b) s allowed v = awaits_rvalue-IsOwned a b s v allowed

empty_store-IsOwned : IsOwned empty_store
empty_store-IsOwned = record {
  lives = λ a h e. cc;
  unique = λ a b h e f. cc;
  covered = λ h e. cc;
  unused = λ h e. refl;
}

Runs-IsOwned : {s : Store} → Runs empty_store s → IsOwned s
Runs-IsOwned begin = empty_store-IsOwned
Runs-IsOwned (then_does {t} runs act allowed e) =
    let (u, f, v) = perform-IsOwned act t allowed (Runs-IsOwned runs) in subst IsOwned (cc) v

-- However tasks are started, moved, assigned, awaited and destroyed, the next such act destroys no
-- frame that does not live, and a frame lives exactly if one object, and no other, owns it.
pub frames_owned :
    {s : Store}
    → Runs empty_store s
    → (act : Act) → Allowed act s
    → ((t : Store) × (perform act s ≡ some t))
      × ((h : ℕ)
          → (s.frames h ≡ live) ↔ ((a : ℕ) × ((b : ℕ) → (owned (s.objects b) ≡ some h) ↔ (a ≡ b))))
frames_owned {s} runs act allowed =
    let v = Runs-IsOwned runs in
    let (t, e, w) = perform-IsOwned act s allowed v in
    (
      (t, e),
      λ h. (
        λ lives.
            let (a, own) = v.covered h lives in
            (
              a,
              λ b.
                  (λ f. v.unique a b h own f, λ q. subst (λ x. owned (s.objects x) ≡ some h) q own),
            ),
        λ (a, only). v.lives a h ((only a).1 refl),
      ),
    )
