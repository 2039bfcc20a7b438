-- ===== src/Server/Serving.antt =====
-- src/rpc_server.cc over src/connection_manager.cc: a frame that arrives on a connection, and the
-- reply that leaves on it.
use hxrpc.Common.{
  ℕ, suc, ◌-◌, ◌≡◌, refl, ap, ◌∙◌, List, [], ◌∷◌, ◌++◌, some, Bytes, length, value, arith,
  lookup-insert_self, nat_eq,
}
use hxrpc.ConnectionManager.Input.Rounds.{taken_off, loop_frame, loop_wait}
use hxrpc.ConnectionManager.Input.Framing.{length-front}
use hxrpc.ConnectionManager.Input.Reading.{arrivals, concat, NonEmpty, drain-arrivals}
use hxrpc.ConnectionManager.Input.{
  World, FrameHandler, done, front, frame, wait, handle_frame, process_loop, process_input,
  handle_readable, drain,
}
use hxrpc.ConnectionManager.Output.Stream.{delivered}
use hxrpc.ConnectionManager.Output.Whole.{idle_with, send_whole}
use hxrpc.ConnectionManager.Output.{flush, flushed, send}
use hxrpc.ConnectionManager.State.{Manager, RecvResult, find, put}
use hxrpc.Dispatcher.Laws.{KeepsTypes}
use hxrpc.Dispatcher.{Dispatcher}
use hxrpc.MessagePool.Laws.{IsMessageApi, IsValid}
use hxrpc.MessagePool.{MessagePool}
use hxrpc.Server.Laws.{reply, send_if, on_frame-reply}
use hxrpc.Server.{on_frame, frame_handler}

-- What the connection got to read: a frame in pieces, and then nothing for now.
pub record Arrives (fd : ℕ) (m : Manager) (f : Bytes) : Type 0 where
  pub before : Bytes
  pub pieces : List Bytes
  pub later : List RecvResult
  pub connected : find fd m ≡ some (idle_with before)
  pub not_empty : NonEmpty pieces
  pub reads : m.recvs ≡ arrivals pieces (RecvResult.would_block ∷ later)
  pub whole : before ++ concat pieces ≡ f

-- The manager with the bytes read that arrived.
abbrev pub read_in : ℕ → Bytes → List RecvResult → Manager → Manager
read_in fd f rs m = put fd (idle_with f) (record m { recvs = rs })

module _ {X : Type 0} (handler : FrameHandler X) (fd : ℕ) where
  front_nil : front [] ≡ wait
  unfolding front
  front_nil = refl

  -- One frame in the buffer, and a handler that leaves the connection with no input.
  process_input_one :
      (w : World X) (f : Bytes)
      → find fd w.0 ≡ some (idle_with f)
      → front f ≡ frame f []
      → find fd (handle_frame handler fd f (taken_off handler fd [] (idle_with f) w)).0
        ≡ some (idle_with [])
      → process_input handler fd w
        ≡ done (handle_frame handler fd f (taken_off handler fd [] (idle_with f) w))
  unfolding process_input
  process_input_one w f e d e' =
      let after = handle_frame handler fd f (taken_off handler fd [] (idle_with f) w) in
      let size : length f ≡ suc (length f - 1) = omega (arith, length-front f f [] d) in
      rw (e, process_input)
        (loop_frame handler fd (length f) w (idle_with f) e f [] d
          ∙ ap (λ n. process_loop handler n fd after) size
          ∙ loop_wait handler fd (length f - 1) after (idle_with []) e' front_nil)

  handle_readable_in :
      (m : Manager) (x : X) (f : Bytes) (a : Arrives fd m f)
      → handle_readable handler fd (m, x) ≡ process_input handler fd (read_in fd f a.later m, x)
  unfolding handle_readable drain
  handle_readable_in m x f a =
      let drained : drain a.before m.recvs ≡ drain f (RecvResult.would_block ∷ a.later) =
        ap (drain a.before) a.reads
        ∙ drain-arrivals a.before a.pieces (RecvResult.would_block ∷ a.later) a.not_empty
        ∙ ap (λ i. drain i (RecvResult.would_block ∷ a.later)) a.whole in
      rw (a.connected, handle_readable, drained) refl

-- The connection is idle again, the bytes are on the wire behind those of before, and the pool is
-- valid.
pub record Serves {M : Type 0} (V : MessagePool M → Type 0) (fd : ℕ) (m : Manager) (b : Bytes)
    (v : World (MessagePool M)) : Type 0 where
  pub connected : find fd v.0 ≡ some (idle_with [])
  pub sent : delivered fd v.0.wire ≡ delivered fd m.wire ++ b
  pub pool_valid : V v.1

module _ {Svc M : Type 0} (d : Dispatcher Svc M) (laws : IsMessageApi d.messages)
    (keep : KeepsTypes d) (fd : ℕ) (m : Manager) (pool : MessagePool M) (f b : Bytes) where
  abbrev pub served : List RecvResult → World (MessagePool M)
  served rs = on_frame d fd f (put fd (idle_with []) (read_in fd f rs m), pool)

  pub served-Serves :
      (rs : List RecvResult)
      → IsValid d.messages pool
      → reply d f ≡ value b
      → (flush b 0 m.sends).ending ≡ flushed
      → Serves (IsValid d.messages) fd m b (served rs)
  served-Serves rs v replied taken =
      let m₁ : Manager = put fd (idle_with []) (read_in fd f rs m) in
      let (same, v') = on_frame-reply d laws keep fd f m₁ pool v in
      let sends : (served rs).0 ≡ send fd b m₁ = same ∙ ap (λ r. send_if fd r m₁) replied in
      let (connected, sent) =
        send_whole fd [] b m₁ (lookup-insert_self fd (idle_with []) (read_in fd f rs m).connections)
          taken in
      record {
        connected = ap (find fd) sends ∙ connected;
        sent = ap (λ (n : Manager). delivered fd n.wire) sends ∙ sent;
        pool_valid = v';
      }

  -- The connection gets a whole frame, in pieces, to which there is a reply that the kernel takes:
  -- HandleReadable puts the reply on the wire, and leaves the connection idle and the pool valid.
  pub handle_readable-Serves :
      (a : Arrives fd m f)
      → IsValid d.messages pool
      → front f ≡ frame f []
      → reply d f ≡ value b
      → (flush b 0 m.sends).ending ≡ flushed
      → (handle_readable (frame_handler d) fd (m, pool) ≡ done (served a.later))
        × Serves (IsValid d.messages) fd m b (served a.later)
  unfolding handle_frame
  handle_readable-Serves a v whole replied taken =
      let s = served-Serves a.later v replied taken in
      (
        handle_readable_in (frame_handler d) fd m pool f a
            ∙ process_input_one (frame_handler d) fd (read_in fd f a.later m, pool) f
                (lookup-insert_self fd (idle_with f) m.connections) whole s.connected,
        s,
      )
