-- ===== src/ConnectionManager/Output/Whole.antt =====
-- src/connection_manager.cc, Send on a connection with nothing left to send.
use hxrpc.Common.{
  ℕ, ◌-◌, ◌≡◌, ap, ◌∙◌, true, [], ◌++◌, some, Bytes, take, arith, lookup-insert_self, nat_eq,
  take_all,
}
use hxrpc.ConnectionManager.Output.Stream.{delivered, delivered-append_self, flush-FlushesWell}
use hxrpc.ConnectionManager.Output.{flush, flushed, finish_flush, write_out, handle_writable, send}
use hxrpc.ConnectionManager.State.{ConnectionState, Manager, find, put, update_interest}

-- A connection with some input and nothing to send.
abbrev pub idle_with : Bytes → ConnectionState
idle_with input = record { input_buffer = input; output_buffer = []; bytes_sent = 0 }

-- A connection with a frame to send.
abbrev sending : Bytes → Bytes → ConnectionState
sending input b = record { input_buffer = input; output_buffer = b; bytes_sent = 0 }

module _ (fd : ℕ) (input b : Bytes) where
  write_out_whole :
      (m : Manager)
      → (flush b 0 m.sends).ending ≡ flushed
      → (find fd (write_out fd (sending input b) m) ≡ some (idle_with input))
        × (delivered fd (write_out fd (sending input b) m).wire ≡ delivered fd m.wire ++ b)
  unfolding write_out finish_flush update_interest
  write_out_whole m taken =
      let r = flush b 0 m.sends in
      let all = (flush-FlushesWell b 0 m.sends (omega arith)).all_sent taken in
      rw (taken, write_out)
        (
          lookup-insert_self fd _ m.connections,
          delivered-append_self fd m.wire (take (r.bytes_sent - 0) b)
              ∙ ap (◌++◌ (delivered fd m.wire))
                  (take_all (r.bytes_sent - 0) b (omega (arith, all))),
        )

  -- If the kernel takes the whole frame, it is on the wire, and the connection as before.
  pub send_whole :
      (m : Manager)
      → find fd m ≡ some (idle_with input)
      → (flush b 0 m.sends).ending ≡ flushed
      → (find fd (send fd b m) ≡ some (idle_with input))
        × (delivered fd (send fd b m).wire ≡ delivered fd m.wire ++ b)
  unfolding send handle_writable update_interest
  send_whole m e taken =
      let m' : Manager = update_interest fd true (put fd (sending input b) m) in
      rw (e, send, lookup-insert_self fd (sending input b) m.connections) (write_out_whole m' taken)
