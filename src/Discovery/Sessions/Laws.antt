-- ===== src/Discovery/Sessions/Laws.antt =====
-- src/zookeeperutil.cc: what a Start that returns says of its session, alone and beside others.
use hxrpc.Common.{
  ℕ, ◌≡◌, ◌≢◌, refl, subst, sym, true, false, ◌==◌, ==_iff, arith, Bool-cases, inl, inr,
}
use hxrpc.Discovery.Sessions.{
  Phase, unstarted, waiting, failed, returned, session_event, connected_state, Sessions,
  no_sessions, reset_flag, init, is_connection, global_watcher, wake, HasSession, Step, resets,
  inits, notifies, wakes, Runs, begin, then_does, EventType, child_event, created_event,
  deleted_event, other_event, SessionState, other_state, connect, connects,
}

not_connection :
    (type : EventType) (state : SessionState)
    → ¬ ((type ≡ session_event) × (state ≡ connected_state))
    → is_connection type state ≡ false
unfolding is_connection
not_connection session_event connected_state h = absurd (h (refl, refl))
not_connection session_event other_state h = refl
not_connection child_event _ h = refl
not_connection created_event _ h = refl
not_connection deleted_event _ h = refl
not_connection other_event _ h = refl

module _ (i : ℕ) where
  -- No other client was ever started.
  abbrev pub IsAlone : Sessions → Type 0
  IsAlone s = (j : ℕ) → i ≢ j → s.phase j ≡ unstarted

  -- The flag and the return of Start tell that the session was connected.
  pub record IsHonest (s : Sessions) : Type 0 where
    pub flag : s.g_connected ≡ true → s.connected i ≡ true
    pub return : s.phase i ≡ returned → s.connected i ≡ true

  Step-IsAlone : {s t : Sessions} → Step s t → IsAlone t → IsAlone s
  unfolding reset_flag init global_watcher wake
  Step-IsAlone (resets k e) h j ne = ground (arith, h j ne)
  Step-IsAlone (inits true k e) h j ne = ground (arith, h j ne)
  Step-IsAlone (inits false k e) h j ne = ground (arith, h j ne)
  Step-IsAlone (connects k e) h j ne = ground (arith, h j ne)
  Step-IsAlone (notifies type state k e other) h j ne = ground (arith, h j ne)
  Step-IsAlone (wakes k e) h j ne = ground (arith, h j ne)

  -- Only the client itself has a session.
  is_own : (s : Sessions) (k : ℕ) → IsAlone s → HasSession (s.phase k) → (i == k) ≡ true
  is_own s k alone has = elim (Bool-cases (i == k)) [
    | inl e ↦ e
    | inr e ↦
        let ne : i ≢ k = λ p. cc (e, (==_iff i k).1 p) in absurd (subst HasSession (alone k ne) has)
  ]

  Step-IsHonest : {s t : Sessions} → Step s t → IsAlone t → IsHonest s → IsHonest t
  unfolding reset_flag init global_watcher wake
  Step-IsHonest (resets k e) h v = record { flag = λ p. cc; return = λ p. ground (arith, v.return) }
  Step-IsHonest (inits true k e) h v = record {
    flag = v.flag;
    return = λ p. ground (arith, v.return);
  }
  Step-IsHonest (inits false k e) h v = record {
    flag = v.flag;
    return = λ p. ground (arith, v.return);
  }
  Step-IsHonest {s} (connects k e) h v =
      let own = is_own s k (Step-IsAlone {s = s} (connects k e) h) e in
      record { flag = λ p. ground (arith, own); return = λ p. ground (arith, own) }
  Step-IsHonest (notifies type state k e other) h v =
      let silent = not_connection type state other in
      record {
        flag = λ p. ground (arith, silent, v.flag);
        return = λ p. ground (arith, silent, v.return);
      }
  Step-IsHonest (wakes k e) h v = record {
    flag = λ p. ground (arith, v.flag);
    return = λ p. ground (arith, v.flag, v.return);
  }

  Runs-IsHonest : {s : Sessions} → Runs s → IsAlone s → IsHonest s
  Runs-IsHonest begin h = record { flag = λ p. cc; return = λ p. cc }
  Runs-IsHonest (then_does runs step) h =
      Step-IsHonest step h (Runs-IsHonest runs (Step-IsAlone step h))

  -- If no other client of ZooKeeper was started in the process, Start returns only when the
  -- session of its client has been connected, whatever other events come and however often the
  -- wait wakes up.
  pub start_alone :
      {s : Sessions} → Runs s → IsAlone s → s.phase i ≡ returned → s.connected i ≡ true
  start_alone runs h = (Runs-IsHonest runs h).return

waiting-HasSession : {p : Phase} → p ≡ waiting → HasSession p
waiting-HasSession e = subst HasSession (sym e) tt

module _ (i j : ℕ) (ne : i ≢ j) where
  other_way : (i == j) ≡ false
  other_way = elim (Bool-cases (i == j)) [ inl e ↦ absurd (ne ((==_iff i j).0 e)) | inr e ↦ e ]

  -- Both clients have begun to wait.
  both_waiting : Sessions
  both_waiting = init true j (init true i (reset_flag j (reset_flag i no_sessions)))

  both_waiting-Runs : Runs both_waiting
  unfolding both_waiting init reset_flag
  both_waiting-Runs =
      then_does
        (then_does
          (then_does (then_does begin (resets i refl)) (resets j (ground (arith, other_way))))
          (inits true i (ground (arith, other_way))))
        (inits true j (ground (arith, other_way)))

  -- Then the session of the second is connected, and the first wakes up.
  woken : Sessions
  woken = wake i (global_watcher session_event connected_state (connect j both_waiting))

  start_early : (s : Sessions) × Runs s × (s.phase i ≡ returned) × (s.connected i ≡ false)
  unfolding woken both_waiting init reset_flag global_watcher wake is_connection
  start_early = (
    woken,
    then_does
        (then_does both_waiting-Runs (connects j (waiting-HasSession (ground (arith, other_way)))))
        (wakes i (ground (arith, other_way))),
    ground (arith, other_way),
    ground (arith, other_way),
  )

  -- The first waits, its session is connected, and then the second begins and fails.
  forgotten : Sessions
  forgotten = init false j (
      reset_flag j (
        global_watcher session_event connected_state
          (connect i (init true i (reset_flag i no_sessions)))))

  start_lost :
      (s : Sessions) × Runs s
      × (s.phase i ≡ waiting)
      × (s.connected i ≡ true)
      × (s.phase j ≡ failed)
      × (wake i s ≡ s)
  unfolding forgotten init reset_flag global_watcher wake is_connection
  start_lost = (
    forgotten,
    then_does
        (then_does
          (then_does
            (then_does (then_does begin (resets i refl)) (inits true i (ground (arith, other_way))))
            (connects i (waiting-HasSession (ground (arith, other_way)))))
          (resets j (ground (arith, other_way))))
        (inits false j (ground (arith, other_way))),
    ground (arith, other_way),
    ground (arith, other_way),
    ground (arith, other_way),
    refl,
  )

-- With two clients in one process, Start may return to one of them though its session was never
-- connected; and it may be that one waits though its session was connected, a wakeup does not let
-- it return, and the other has failed.
pub start_shared :
    (i j : ℕ)
    → i ≢ j
    → ((s : Sessions) × Runs s × (s.phase i ≡ returned) × (s.connected i ≡ false))
      × ((s : Sessions) × Runs s
          × (s.phase i ≡ waiting)
          × (s.connected i ≡ true)
          × (s.phase j ≡ failed)
          × (wake i s ≡ s))
start_shared i j ne = (start_early i j ne, start_lost i j ne)
