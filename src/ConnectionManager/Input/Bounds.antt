-- ===== src/ConnectionManager/Input/Bounds.antt =====
-- src/connection_manager.cc, ProcessInput: how much input of a connection is kept.
use hxrpc.Common.{ℕ, ◌+◌, ◌<◌, ◌≡◌, ◌⊎◌, none, some, length}
use hxrpc.ConnectionManager.Input.{
  World, FrameHandler, Processed, done, dangling, invalid, front, max_frame_body_size,
}
use hxrpc.ConnectionManager.State.{ConnectionState, find, close}

module _ {X : Type 0} (handler : FrameHandler X) (fd : ℕ) where
  -- The handler has erased the connection; or it is closed, for the length field that its unread
  -- input begins with; or it is left as it is, with less input than the largest frame has bytes.
  abbrev pub IsBounded : Processed X → Type 0
  IsBounded r =
      (w : World X) × (((find fd w.0 ≡ none) × (r ≡ dangling w))
        ⊎ ((st : ConnectionState) × (find fd w.0 ≡ some st)
            × (((front st.input_buffer ≡ invalid) × (r ≡ done (close fd w.0, w.1)))
                ⊎ ((length st.input_buffer < 4 + max_frame_body_size) × (r ≡ done w)))))
