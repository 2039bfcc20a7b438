-- ===== src/ConnectionManager/Input/Delivery.antt =====
-- src/connection_manager.cc: what ProcessInput hands to the frame handler, and how it ends.
use hxrpc.Common.{
  ℕ, zero, suc, ◌<◌, ◌≡◌, ◌≢◌, refl, sym, ap, subst, ◌∙◌, ◌⊎◌, inl, inr, List, [], ◌∷◌, none, some,
  Bytes, length, arith, lookup-insert_self, nat_eq,
}
use hxrpc.ConnectionManager.Input.Framing.{Cuts, stop, more, IsStuck, length-rest}
use hxrpc.ConnectionManager.Input.{
  World, FrameHandler, Processed, done, dangling, Front, wait, invalid, frame, front, handle_frame,
  process_loop, process_input,
}
use hxrpc.ConnectionManager.State.{ConnectionState, find, close}
use hxrpc.ConnectionManager.Input.Rounds.{
  KeepsInput, Front-cases, with_input, taken_off, loop_wait, loop_invalid, loop_frame, loop_gone,
}

module _ {X : Type 0} (handler : FrameHandler X) (fd : ℕ) where
  -- `Runs w fs v`: from `w`, the handler gets the frames `fs` in order, each taken off the buffer
  -- before its call, and `v` is the world after them.
  pub data Runs : World X → List Bytes → World X → Type 0 where
    end : {w : World X} → Runs w [] w
    call :
        {w v : World X} {f rest : Bytes} {fs : List Bytes} (st : ConnectionState)
        → find fd w.0 ≡ some st
        → front st.input_buffer ≡ frame f rest
        → Runs (handle_frame handler fd f (taken_off handler fd rest st w)) fs v
        → Runs w (f ∷ fs) v

  -- Where ProcessInput stops after the last whole frame: it waits for more bytes, or closes the
  -- connection at a length field out of range.
  abbrev pub settle : Front → World X → World X
  settle invalid w = (close fd w.0, w.1)
  settle _ w = w

  -- How ProcessInput ends after the frames: the last call of the handler has erased the connection,
  -- or no further frame can be cut off what is left of its input.
  abbrev pub Ends : Processed X → Bytes → World X → Type 0
  Ends r rest last =
      ((find fd last.0 ≡ none) × (r ≡ dangling last))
      ⊎ ((st : ConnectionState) × (find fd last.0 ≡ some st)
          × (st.input_buffer ≡ rest)
          × IsStuck rest
          × (r ≡ done (settle (front rest) last)))

  pub record Delivered (r : Processed X) (w : World X) (input : Bytes) : Type 0 where
    pub frames : List Bytes
    pub rest : Bytes
    pub last : World X
    pub cuts : Cuts input frames rest
    pub runs : Runs w frames last
    pub ends : Ends r rest last

  stuck_of : (g : Front) → (g ≡ wait) ⊎ (g ≡ invalid) → (f r : Bytes) → g ≢ frame f r
  stuck_of g (inl e) f r = λ h. cc
  stuck_of g (inr e) f r = λ h. cc

  -- Nothing is cut off.
  stops :
      (r : Processed X) (w : World X) (st : ConnectionState)
      → find fd w.0 ≡ some st
      → (front st.input_buffer ≡ wait) ⊎ (front st.input_buffer ≡ invalid)
      → r ≡ done (settle (front st.input_buffer) w)
      → Delivered r w st.input_buffer
  stops r w st e d same = record {
    frames = [];
    rest = st.input_buffer;
    last = w;
    cuts = stop;
    runs = end;
    ends = inr (st, e, refl, stuck_of _ d, same);
  }

  -- The loop delivers within `n` rounds every shorter buffer.
  abbrev DeliversWithin : ℕ → Type 0
  DeliversWithin n =
      (w : World X) (st : ConnectionState)
      → find fd w.0 ≡ some st
      → length st.input_buffer < n
      → Delivered (process_loop handler n fd w) w st.input_buffer

  after_frame-Delivered :
      (n : ℕ) (w : World X) (b : Bytes)
      → DeliversWithin n
      → (find fd w.0 ≡ none)
        ⊎ ((st : ConnectionState) × (find fd w.0 ≡ some st) × (st.input_buffer ≡ b))
      → length b < n
      → Delivered (process_loop handler n fd w) w b
  after_frame-Delivered zero w b ih kept lt = absurd (omega arith)
  after_frame-Delivered (suc n) w b ih (inl gone) lt = record {
    frames = [];
    rest = b;
    last = w;
    cuts = stop;
    runs = end;
    ends = inl (gone, loop_gone handler fd n w gone);
  }
  after_frame-Delivered (suc n) w b ih (inr (st, e, same)) lt =
      subst (Delivered (process_loop handler (suc n) fd w) w) same
        (ih w st e (omega (arith, ap length same)))

  loop-Delivered : KeepsInput handler fd → (n : ℕ) → DeliversWithin n
  loop-Delivered keep zero w st e lt = absurd (omega arith)
  loop-Delivered keep (suc n) w st e lt = elim (Front-cases (front st.input_buffer)) [
    | inl d ↦ stops _ w st e (inl d) (loop_wait handler fd n w st e d ∙ rw d)
    | inr (inl d) ↦ stops _ w st e (inr d) (loop_invalid handler fd n w st e d ∙ rw d)
    | inr (inr (f, r, d)) ↦
        let w' = handle_frame handler fd f (taken_off handler fd r st w) in
        let later =
          after_frame-Delivered n w' r (loop-Delivered keep n)
            (keep f (taken_off handler fd r st w) (with_input r st)
              (lookup-insert_self fd (with_input r st) w.0.connections))
            (omega (arith, length-rest st.input_buffer f r d)) in
        record {
          frames = f ∷ later.frames;
          rest = later.rest;
          last = later.last;
          cuts = more d later.cuts;
          runs = call st e d later.runs;
          ends =
              subst (λ x. Ends x later.rest later.last) (sym (loop_frame handler fd n w st e f r d))
                later.ends;
        }
  ]

  -- If the handler leaves the unread input of the connection alone or erases the connection,
  -- ProcessInput on a connection that exists hands it whole frames cut off the front of the
  -- buffer, one after the other and in order; it stops when the handler has erased the connection,
  -- whose buffer it then reads, or when no further frame can be cut off what is left, and then it
  -- waits, or closes the connection if that begins with a length out of range.
  pub process_input-Delivered :
      KeepsInput handler fd
      → (w : World X) (st : ConnectionState) → find fd w.0 ≡ some st
      → Delivered (process_input handler fd w) w st.input_buffer
  unfolding process_input
  process_input-Delivered keep w st e =
      rw (e, process_input)
        (loop-Delivered keep (suc (length st.input_buffer)) w st e (omega arith))
