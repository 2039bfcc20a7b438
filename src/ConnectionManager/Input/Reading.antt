-- ===== src/ConnectionManager/Input/Reading.antt =====
-- src/connection_manager.cc: the read loop of HandleReadable.
use hxrpc.Common.{
  ℕ, ◌≡◌, ◌≢◌, refl, ap, ◌∙◌, List, [], ◌∷◌, ◌++◌, some, Bytes, append_assoc, append-nil,
}
use hxrpc.ConnectionManager.Input.{World, FrameHandler, done, drain, handle_readable}
use hxrpc.ConnectionManager.State.{ConnectionState, RecvResult, received, find, close}

-- `received` for each piece.
abbrev pub arrivals : List Bytes → List RecvResult → List RecvResult
arrivals [] rs = rs
arrivals (c ∷ cs) rs = received c ∷ arrivals cs rs

abbrev pub concat : List Bytes → Bytes
concat [] = []
concat (c ∷ cs) = c ++ concat cs

abbrev pub NonEmpty : List Bytes → Type 0
NonEmpty [] = Unit {0}
NonEmpty (c ∷ cs) = (c ≢ []) × NonEmpty cs

drain_piece :
    (input c : Bytes) (rs : List RecvResult)
    → c ≢ []
    → drain input (received c ∷ rs) ≡ drain (input ++ c) rs
unfolding drain
drain_piece input [] rs h = absurd (h refl)
drain_piece input (b ∷ c) rs h = refl

-- The read loop gathers every piece that arrives before the call would block.
pub drain-arrivals :
    (input : Bytes) (cs : List Bytes) (rs : List RecvResult)
    → NonEmpty cs
    → drain input (arrivals cs rs) ≡ drain (input ++ concat cs) rs
drain-arrivals input [] rs h = rw append-nil
drain-arrivals input (c ∷ cs) rs h =
    drain_piece input c (arrivals cs rs) h.0
    ∙ drain-arrivals (input ++ c) cs rs h.1
    ∙ ap (λ b. drain b rs) (append_assoc input c (concat cs))

-- If the end of the stream is read in the same readiness as the bytes before it, the connection is
-- closed and the handler gets none of those bytes.
pub handle_readable_eof :
    {X : Type 0} (handler : FrameHandler X) (fd : ℕ) (w : World X) (st : ConnectionState)
    (cs : List Bytes) (rs : List RecvResult)
    → find fd w.0 ≡ some st
    → NonEmpty cs
    → w.0.recvs ≡ arrivals cs (received [] ∷ rs)
    → handle_readable handler fd w ≡ done (close fd (record w.0 { recvs = rs }), w.1)
unfolding handle_readable
handle_readable_eof handler fd w st cs rs e h script =
    rw (e, script, drain-arrivals st.input_buffer cs (received [] ∷ rs) h, handle_readable)
      (unfold drain in refl)
