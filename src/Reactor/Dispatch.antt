-- ===== src/Reactor/Dispatch.antt =====
-- src/reactor.cc: the table after a call, and the dispatch of one event.
use hxrpc.Common.{
  ℕ, Bool, true, false, ◌≡◌, ◌↔◌, none, some, List, lookup, nat_eq, lookup-insert, arith,
  if◌then◌else◌, ◌==◌, Option-cases, inl, inr, ==_iff,
}
use hxrpc.Reactor.{
  Reactor, Handler, Interest, update, Event, ran, dangling, Host, run_callback, after_readable,
  dispatch, WaitResult, loop,
}

module _ {C : Type 0} where
  -- Update changes the interest of a registered descriptor and no callback; an unknown descriptor
  -- is left alone.
  pub handlers-update :
      (r : Reactor C) (fd : ℕ) (i : Interest) (j : ℕ)
      → lookup j (update r fd i).handlers ≡ (elim (lookup j r.handlers) [
        | none ↦ none
        | some h ↦ some (if fd == j then record h { events = i } else h)
      ])
  unfolding update
  handlers-update r fd i j = elim (Option-cases (lookup fd r.handlers)) [
    | inl e ↦ ground (arith, ==_iff fd j)
    | inr (h, e) ↦
        ground (arith, ==_iff fd j, lookup-insert fd j (record h { events = i }) r.handlers)
  ]

module _ {S C : Type 0} (host : Host S C) where
  open host use {reactor, set_running, call}

  -- An event with an error flag runs the error callback alone.
  pub dispatch_failed :
      (e : Event) (s : S) (h : Handler C)
      → lookup e.fd (reactor s).handlers ≡ some h
      → e.failed ≡ true
      → dispatch host e s ≡ ran (run_callback host h.on_error e.fd s)
  unfolding dispatch
  dispatch_failed e s h found failed = ground arith

  -- For an event of a registered descriptor, the handler is read after it was erased exactly when
  -- the event has no error flag, is readable and writable, and the readable callback removes the
  -- descriptor.
  pub dispatch_dangling :
      (e : Event) (s : S) (h : Handler C)
      → lookup e.fd (reactor s).handlers ≡ some h
      → (dispatch host e s ≡ dangling (run_callback host h.on_readable e.fd s)) ↔ (
          (e.failed ≡ false)
          × (e.readable ≡ true)
          × (e.writable ≡ true)
          × (lookup e.fd (reactor (run_callback host h.on_readable e.fd s)).handlers ≡ none))
  unfolding dispatch after_readable
  dispatch_dangling e s h found = (ground arith, ground arith)

  -- A stop that comes before the loop is forgotten.
  pub loop-stop :
      (ws : List WaitResult) (s : S)
      → ((a b : Bool) (t : S) → set_running a (set_running b t) ≡ set_running a t)
      → loop host ws (set_running false s) ≡ loop host ws s
  unfolding loop
  loop-stop ws s h = rw (h true false s)
