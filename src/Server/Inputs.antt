-- ===== src/Server/Inputs.antt =====
-- src/rpc_server.cc, OnFrame, as the frame handler of src/connection_manager.cc: what becomes of
-- the connection of the frame while ProcessInput runs.
use hxrpc.Common.{
  ℕ, suc, ◌-◌, ◌≡◌, ◌↔◌, refl, ap, ◌∙◌, ◌⊎◌, inl, inr, false, none, some, Bytes, length, arith,
  Expected, value, unexpected, lookup-insert_self, nat_eq,
}
use hxrpc.ConnectionManager.Input.Framing.{length-rest}
use hxrpc.ConnectionManager.Input.Rounds.{KeepsInput, with_input, loop_frame, loop_gone, loop_wait}
use hxrpc.ConnectionManager.Input.{
  World, dangling, wait, frame, front, handle_frame, process_loop, process_input,
}
use hxrpc.ConnectionManager.Output.Kept.{
  Keeps, is_broken, send_ending, send-Keeps, send_broken, send_erases,
}
use hxrpc.ConnectionManager.Output.{broken, send}
use hxrpc.ConnectionManager.State.{ConnectionState, Manager, find, put, is_listener}
use hxrpc.Dispatcher.Laws.{KeepsTypes}
use hxrpc.Dispatcher.{Dispatcher, dispatch_frame}
use hxrpc.MessagePool.Laws.{IsMessageApi, IsValid}
use hxrpc.MessagePool.{MessagePool}
use hxrpc.Server.Laws.{send_if, reply_to, reply, respond-reply, on_frame-reply}
use hxrpc.Server.{on_frame, frame_handler}
use hxrpc.Types.{RpcError}

send_if_erases :
    (fd : ℕ) (r : Expected Bytes RpcError) (st : ConnectionState) (m : Manager)
    → find fd m ≡ some st
    → (find fd (send_if fd r m) ≡ none) ⊎ Keeps fd st (send_if fd r m)
send_if_erases fd (unexpected e) st m there = inr (st, there, refl)
send_if_erases fd (value b) st m there = send_erases fd b st m there

module _ {Svc M : Type 0} (d : Dispatcher Svc M) (fd : ℕ) where
  open d use {messages}

  -- The server's frame handler, given any frame of a connection that exists, leaves the unread
  -- input of the connection alone or erases the connection.
  pub frame_handler-KeepsInput : KeepsInput (frame_handler d) fd
  unfolding handle_frame on_frame
  frame_handler-KeepsInput f (m, pool) st there =
      let r = (dispatch_frame d f pool).0 in
      rw (respond-reply d fd f r m) (send_if_erases fd (reply_to d f r) st m there)

  module _ (st : ConnectionState) (m : Manager) (pool : MessagePool M) (f r b : Bytes)
      (there : find fd m ≡ some st) (first : front st.input_buffer ≡ frame f r) where
    -- The manager and the world that the handler gets and leaves.
    abbrev off : Manager
    off = put fd (with_input r st) m

    abbrev after : World (MessagePool M)
    after = handle_frame (frame_handler d) fd f (off, pool)

    rounds :
        (k : ℕ) × (process_input (frame_handler d) fd (m, pool)
          ≡ process_loop (frame_handler d) (suc k) fd after)
    unfolding process_input
    rounds =
        let long : length st.input_buffer ≡ suc (length st.input_buffer - 1) =
          omega (arith, length-rest st.input_buffer f r first) in
        (
          length st.input_buffer - 1,
          rw (there, process_input)
              (loop_frame (frame_handler d) fd (length st.input_buffer) (m, pool) st there f r first
                ∙ ap (λ n. process_loop (frame_handler d) n fd after) long),
        )

    -- If the message runtime obeys its laws, parsing and services keep the types of messages, the
    -- pool is valid, the descriptor is not the listener's, and the connection's input is a frame
    -- that the server replies to and then nothing that is whole or out of range, ProcessInput with
    -- the server's handler reads the buffer of an erased connection exactly when ::send breaks in
    -- the sending of the reply.
    pub on_frame_dangling :
        (laws : IsMessageApi messages)
        → KeepsTypes d
        → IsValid messages pool
        → reply d f ≡ value b
        → is_listener m.listen_fd fd ≡ false
        → front r ≡ wait
        → ((v : World (MessagePool M)) × (process_input (frame_handler d) fd (m, pool)
              ≡ dangling v))
          ↔ (send_ending b st m ≡ broken)
    unfolding handle_frame
    on_frame_dangling laws keep valid replied alone last =
        let (k, ran) = rounds in
        let off_there = lookup-insert_self fd (with_input r st) m.connections in
        let sent : after.0 ≡ send fd b off =
          (on_frame-reply d laws keep fd f off pool valid).0 ∙ ap (λ x. send_if fd x off) replied in
        elim (is_broken (send_ending b st m)) [
          | yes h ↦
              let gone = send_broken fd b (with_input r st) off off_there h alone in
              (
                (λ v. h),
                (λ h'. (
                  after,
                  ran ∙ loop_gone (frame_handler d) fd k after (ap (find fd) sent ∙ gone),
                )),
              )
          | no h ↦
              let (st', there', same) = send-Keeps fd b (with_input r st) off off_there (inl h) in
              let ended =
                loop_wait (frame_handler d) fd k after st' (ap (find fd) sent ∙ there')
                  (ap front same ∙ last) in
              ((λ (v, e). cc), (λ h'. absurd (h h')))
        ]
