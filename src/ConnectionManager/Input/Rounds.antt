-- ===== src/ConnectionManager/Input/Rounds.antt =====
-- src/connection_manager.cc: the rounds of the loop of ProcessInput, and its end.
use hxrpc.Common.{
  ℕ, zero, suc, ◌<◌, ◌≡◌, ◌≢◌, refl, ap, ◌⊎◌, inl, inr, none, some, Bytes, length, arith,
  lookup-insert_self, nat_eq, Option-cases,
}
use hxrpc.ConnectionManager.Input.Framing.{length-rest}
use hxrpc.ConnectionManager.Input.{
  World, FrameHandler, done, dangling, out_of_fuel, Front, wait, invalid, frame, front,
  handle_frame, process_loop, process_input,
}
use hxrpc.ConnectionManager.State.{ConnectionState, find, put, close}

pub Front-cases :
    (g : Front) → (g ≡ wait) ⊎ (g ≡ invalid) ⊎ ((f : Bytes) × (r : Bytes) × (g ≡ frame f r))
Front-cases wait = inl refl
Front-cases invalid = inr (inl refl)
Front-cases (frame f r) = inr (inr (f, r, refl))

abbrev pub with_input : Bytes → ConnectionState → ConnectionState
with_input b st = record st { input_buffer = b }

module _ {X : Type 0} (handler : FrameHandler X) (fd : ℕ) where
  -- The handler leaves the connection's unread input alone, or erases the connection.
  abbrev pub KeepsInput : Type 0
  KeepsInput =
      (f : Bytes) (w : World X) (st : ConnectionState)
      → find fd w.0 ≡ some st
      → (find fd (handle_frame handler fd f w).0 ≡ none)
        ⊎ ((st' : ConnectionState) × (find fd (handle_frame handler fd f w).0 ≡ some st')
            × (st'.input_buffer ≡ st.input_buffer))

  -- The world that the handler gets for a frame: the frame is off the buffer.
  abbrev pub taken_off : Bytes → ConnectionState → World X → World X
  taken_off rest st w = (put fd (with_input rest st) w.0, w.1)

  module _ (n : ℕ) (w : World X) (st : ConnectionState) (e : find fd w.0 ≡ some st) where
    pub loop_wait : front st.input_buffer ≡ wait → process_loop handler (suc n) fd w ≡ done w
    unfolding process_loop
    loop_wait d = rw (e, process_loop, d)

    pub loop_invalid :
        front st.input_buffer ≡ invalid
        → process_loop handler (suc n) fd w ≡ done (close fd w.0, w.1)
    unfolding process_loop
    loop_invalid d = rw (e, process_loop, d)

    pub loop_frame :
        (f r : Bytes)
        → front st.input_buffer ≡ frame f r
        → process_loop handler (suc n) fd w
          ≡ process_loop handler n fd (handle_frame handler fd f (taken_off r st w))
    unfolding process_loop
    loop_frame f r d = rw (e, process_loop, d)

  pub loop_gone :
      (n : ℕ) (w : World X) → find fd w.0 ≡ none → process_loop handler (suc n) fd w ≡ dangling w
  unfolding process_loop
  loop_gone n w e = rw (e, process_loop)

  -- The loop ends within `n` rounds on every shorter buffer.
  abbrev EndsWithin : ℕ → Type 0
  EndsWithin n =
      (w : World X) (st : ConnectionState)
      → find fd w.0 ≡ some st
      → length st.input_buffer < n
      → (v : World X) → process_loop handler n fd w ≢ out_of_fuel v

  after_frame_ends :
      (n : ℕ) (w : World X) (b : Bytes)
      → EndsWithin n
      → (find fd w.0 ≡ none)
        ⊎ ((st : ConnectionState) × (find fd w.0 ≡ some st) × (st.input_buffer ≡ b))
      → length b < n
      → (v : World X) → process_loop handler n fd w ≢ out_of_fuel v
  after_frame_ends zero w b ih kept lt v = absurd (omega arith)
  after_frame_ends (suc n) w b ih (inl gone) lt v = rw (loop_gone n w gone) (λ h. cc)
  after_frame_ends (suc n) w b ih (inr (st, e, same)) lt v =
      ih w st e (omega (arith, ap length same)) v

  loop_ends : KeepsInput → (n : ℕ) → EndsWithin n
  loop_ends keep zero w st e lt v = absurd (omega arith)
  loop_ends keep (suc n) w st e lt v = elim (Front-cases (front st.input_buffer)) [
    | inl d ↦ rw (loop_wait n w st e d) (λ h. cc)
    | inr (inl d) ↦ rw (loop_invalid n w st e d) (λ h. cc)
    | inr (inr (f, r, d)) ↦ rw (loop_frame n w st e f r d) (
        after_frame_ends n (handle_frame handler fd f (taken_off r st w)) r (loop_ends keep n)
          (keep f (taken_off r st w) (with_input r st) (lookup-insert_self fd _ w.0.connections))
          (omega (arith, length-rest st.input_buffer f r d)) v)
  ]

  -- If the handler leaves the unread input alone or erases the connection, the loop of
  -- ProcessInput ends within one round more than the buffer has bytes.
  pub process_input_ends : KeepsInput → (w v : World X) → process_input handler fd w ≢ out_of_fuel v
  unfolding process_input
  process_input_ends keep w v = elim (Option-cases (find fd w.0)) [
    | inl e ↦ rw (e, process_input) (λ h. cc)
    | inr (st, e) ↦
        rw (e, process_input) (loop_ends keep (suc (length st.input_buffer)) w st e (omega arith) v)
  ]
