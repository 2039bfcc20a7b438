-- ===== src/ConnectionManager/Output/Kept.antt =====
-- src/connection_manager.cc, Send: what becomes of the connection and of its unread input.
use hxrpc.Common.{
  ℕ, ◌≡◌, ◌≢◌, refl, ◌∙◌, ◌⊎◌, inl, inr, true, false, ◌++◌, none, some, Bytes, Bool-cases,
  lookup-insert_self, nat_eq,
}
use hxrpc.ConnectionManager.Output.{
  FlushEnd, flushed, blocked, broken, flush, finish_flush, write_out, handle_writable, send,
}
use hxrpc.ConnectionManager.State.{
  ConnectionState, Manager, find, put, update_interest, is_listener, find-close_self, find-close,
}

-- The connection is there, with the unread input of `st`.
abbrev pub Keeps : ℕ → ConnectionState → Manager → Type 0
Keeps fd st m =
    (st' : ConnectionState) × (find fd m ≡ some st') × (st'.input_buffer ≡ st.input_buffer)

pub is_broken : (x : FlushEnd) → Dec (x ≡ broken)
is_broken flushed = no (λ h. cc)
is_broken blocked = no (λ h. cc)
is_broken broken = yes refl

finish_flush-Keeps :
    (ending : FlushEnd) (fd : ℕ) (st : ConnectionState) (m : Manager)
    → (ending ≢ broken) ⊎ (is_listener m.listen_fd fd ≡ true)
    → Keeps fd st (finish_flush ending fd st m)
unfolding finish_flush update_interest
finish_flush-Keeps flushed fd st m h = (_, lookup-insert_self fd _ m.connections, refl)
finish_flush-Keeps blocked fd st m h = (st, lookup-insert_self fd st m.connections, refl)
finish_flush-Keeps broken fd st m (inl ne) = absurd (ne refl)
finish_flush-Keeps broken fd st m (inr l) =
    (st, find-close fd fd (put fd st m) (inl l) ∙ lookup-insert_self fd st m.connections, refl)

-- The ending of the write loop of a Send.
abbrev pub send_ending : Bytes → ConnectionState → Manager → FlushEnd
send_ending b st m = (flush (st.output_buffer ++ b) st.bytes_sent m.sends).ending

module _ (fd : ℕ) (b : Bytes) (st : ConnectionState) (m : Manager) (e : find fd m ≡ some st) where
  -- The state and the manager that the write loop of Send starts from.
  abbrev with_output : ConnectionState
  with_output = record st { output_buffer = st.output_buffer ++ b }

  abbrev buffered : Manager
  buffered = update_interest fd true (put fd with_output m)

  send-write_out : send fd b m ≡ write_out fd with_output buffered
  unfolding send handle_writable update_interest
  send-write_out = rw (e, send, lookup-insert_self fd with_output m.connections) refl

  pub send-Keeps :
      (send_ending b st m ≢ broken) ⊎ (is_listener m.listen_fd fd ≡ true)
      → Keeps fd st (send fd b m)
  unfolding write_out update_interest
  send-Keeps h = rw send-write_out (finish_flush-Keeps (send_ending b st m) fd _ _ h)

  -- A Send that fails erases the connection.
  pub send_broken :
      send_ending b st m ≡ broken
      → is_listener m.listen_fd fd ≡ false
      → find fd (send fd b m) ≡ none
  unfolding write_out finish_flush update_interest
  send_broken h l = rw (send-write_out, write_out, h) (find-close_self fd _ l)

  -- Send leaves the unread input alone, or erases the connection.
  pub send_erases : (find fd (send fd b m) ≡ none) ⊎ Keeps fd st (send fd b m)
  send_erases = elim (Bool-cases (is_listener m.listen_fd fd)) [
    | inl l ↦ inr (send-Keeps (inr l))
    | inr l ↦ elim (is_broken (send_ending b st m)) [
      | yes h ↦ inl (send_broken h l)
      | no h ↦ inr (send-Keeps (inl h))
    ]
  ]
