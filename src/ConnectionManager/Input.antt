-- ===== src/ConnectionManager/Input.antt =====
-- src/connection_manager.cc, HandleReadable and ProcessInput: bytes into frames, and frames to
-- the handler.
pub mod Framing
pub mod Rounds
pub mod Delivery
pub mod Reading
pub mod Bounds
use hxrpc.Codec.Wire.{read_be32}
use hxrpc.Common.{
  ℕ, zero, suc, ◌+◌, ◌-◌, ◌*◌, ◌≡◌, Bool, true, false, ◌||◌, List, [], ◌∷◌, ◌++◌, Option, none,
  some, Bytes, if◌then◌else◌, ltb, length, take, drop,
}
use hxrpc.ConnectionManager.State.{ConnectionState, Manager, RecvResult, received, find, put, close}

-- kMaxFrameBodySize
abbrev pub max_frame_body_size : ℕ
max_frame_body_size = 4 * 1024 * 1024

-- The manager with the state `X` of the code behind the frame handler.
abbrev pub World : Type 0 → Type 0
World X = Manager × X

-- `frame_handler_`, which may be unset.
abbrev pub FrameHandler : Type 0 → Type 0
FrameHandler X = Option (ℕ → Bytes → World X → World X)

-- `dangling` is a read through the reference to the input buffer of an erased connection, which
-- the source does not define. `out_of_fuel` is the model's own.
pub data Processed (X : Type 0) : Type 0 where
  done dangling out_of_fuel : World X → Processed X

-- What ProcessInput finds at the front of the buffer.
pub data Front : Type 0 where
  wait invalid : Front
  frame : Bytes → Bytes → Front

unfoldable pub front : Bytes → Front
front input =
    if ltb (length input) 4
    then wait
    else (let frame_size = read_be32 input in
        if ltb frame_size 4 || ltb max_frame_body_size frame_size
        then invalid
        else if ltb (length input) (4 + frame_size)
        then wait
        else frame (take (4 + frame_size) input) (drop (4 + frame_size) input))

module _ {X : Type 0} (handler : FrameHandler X) where
  unfoldable pub handle_frame : ℕ → Bytes → World X → World X
  handle_frame fd f w = elim handler [ none ↦ w | some h ↦ h fd f w ]

  -- The loop of ProcessInput; each round takes one frame off the buffer.
  unfoldable pub process_loop : ℕ → ℕ → World X → Processed X
  unfolding handle_frame
  process_loop zero fd w = out_of_fuel w
  process_loop (suc fuel) fd (m, x) = elim (find fd m) [
    | none ↦ dangling (m, x)
    | some st ↦ elim (front st.input_buffer) [
      | wait ↦ done (m, x)
      | invalid ↦ done (close fd m, x)
      | frame f rest ↦
          process_loop fuel fd (handle_frame fd f (put fd (record st { input_buffer = rest }) m, x))
    ]
  ]

  -- ConnectionManager::ProcessInput
  unfoldable pub process_input : ℕ → World X → Processed X
  unfolding process_loop
  process_input fd (m, x) = elim (find fd m) [
    | none ↦ done (m, x)
    | some st ↦ process_loop (suc (length st.input_buffer)) fd (m, x)
  ]

-- How the read loop ends: EAGAIN with the buffer so far, or the end of the stream or an error.
pub data Drained : Type 0 where
  buffered : Bytes → List RecvResult → Drained
  lost : List RecvResult → Drained

-- `while (true)` around ::recv.
unfoldable pub drain : Bytes → List RecvResult → Drained
drain input [] = buffered input []
drain input (received [] ∷ rs) = lost rs
drain input (received (b ∷ bs) ∷ rs) = drain (input ++ b ∷ bs) rs
drain input (RecvResult.interrupted ∷ rs) = drain input rs
drain input (RecvResult.would_block ∷ rs) = buffered input rs
drain input (RecvResult.failed ∷ rs) = lost rs

module _ {X : Type 0} (handler : FrameHandler X) where
  after_drain : Drained → ℕ → ConnectionState → World X → Processed X
  after_drain (buffered input rs) fd st (m, x) =
      process_input handler fd
        (put fd (record st { input_buffer = input }) (record m { recvs = rs }), x)
  after_drain (lost rs) fd st (m, x) = done (close fd (record m { recvs = rs }), x)

  -- ConnectionManager::HandleReadable
  unfoldable pub handle_readable : ℕ → World X → Processed X
  unfolding after_drain
  handle_readable fd (m, x) = elim (find fd m) [
    | none ↦ done (m, x)
    | some st ↦ after_drain (drain st.input_buffer m.recvs) fd st (m, x)
  ]
