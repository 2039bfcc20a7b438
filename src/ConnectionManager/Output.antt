-- ===== src/ConnectionManager/Output.antt =====
-- src/connection_manager.cc, Send and HandleWritable: the output buffer and its resumption
-- after a short write.
pub mod Stream
pub mod Whole
pub mod Kept
use hxrpc.Common.{
  ℕ, zero, suc, ◌+◌, ◌-◌, ◌≡◌, Bool, true, false, List, [], ◌∷◌, ◌++◌, Option, none, some, Bytes,
  if◌then◌else◌, ltb, length, take, drop, min,
}
use hxrpc.ConnectionManager.State.{
  ConnectionState, Manager, SendResult, written, find, put, update_interest, close,
}

-- How the write loop ends: all bytes sent, EAGAIN, or an error that closes the connection.
pub data FlushEnd : Type 0 where
  flushed blocked broken : FlushEnd

pub record Flush : Type 0 where
  pub ending : FlushEnd
  pub bytes_sent : ℕ
  pub sends : List SendResult

-- `while (bytes_sent < output_buffer.size())`. ::send takes at most the bytes that are left.
unfoldable pub flush : Bytes → ℕ → List SendResult → Flush
flush output n [] =
    if ltb n (length output)
    then record { ending = blocked; bytes_sent = n; sends = [] }
    else record { ending = flushed; bytes_sent = n; sends = [] }
flush output n (written zero ∷ rs) =
    if ltb n (length output)
    then record { ending = broken; bytes_sent = n; sends = rs }
    else record { ending = flushed; bytes_sent = n; sends = written zero ∷ rs }
flush output n (written (suc k) ∷ rs) =
    let rest = flush output (n + min (suc k) (length output - n)) rs in
    if ltb n (length output)
    then rest
    else record { ending = flushed; bytes_sent = n; sends = written (suc k) ∷ rs }
flush output n (SendResult.interrupted ∷ rs) =
    let rest = flush output n rs in
    if ltb n (length output)
    then rest
    else record { ending = flushed; bytes_sent = n; sends = SendResult.interrupted ∷ rs }
flush output n (SendResult.would_block ∷ rs) =
    if ltb n (length output)
    then record { ending = blocked; bytes_sent = n; sends = rs }
    else record { ending = flushed; bytes_sent = n; sends = SendResult.would_block ∷ rs }
flush output n (SendResult.failed ∷ rs) =
    if ltb n (length output)
    then record { ending = broken; bytes_sent = n; sends = rs }
    else record { ending = flushed; bytes_sent = n; sends = SendResult.failed ∷ rs }

-- What follows the loop, on the state in which the loop left the manager.
finish_flush : FlushEnd → ℕ → ConnectionState → Manager → Manager
finish_flush flushed fd st m =
    update_interest fd false (put fd (record st { output_buffer = []; bytes_sent = 0 }) m)
finish_flush blocked fd st m = update_interest fd true (put fd st m)
finish_flush broken fd st m = close fd (put fd st m)

write_out : ℕ → ConnectionState → Manager → Manager
unfolding finish_flush
write_out fd st m =
    let r = flush st.output_buffer st.bytes_sent m.sends in
    let taken = take (r.bytes_sent - st.bytes_sent) (drop st.bytes_sent st.output_buffer) in
    finish_flush r.ending fd (record st { bytes_sent = r.bytes_sent })
      (record m { sends = r.sends; wire = m.wire ++ (fd, taken) ∷ [] })

if_connected : Option ConnectionState → (ConnectionState → Manager) → Manager → Manager
if_connected none f m = m
if_connected (some st) f m = f st

-- ConnectionManager::HandleWritable
unfoldable pub handle_writable : ℕ → Manager → Manager
unfolding if_connected write_out
handle_writable fd m = if_connected (find fd m) (λ st. write_out fd st m) m

-- ConnectionManager::Send
unfoldable pub send : ℕ → Bytes → Manager → Manager
unfolding if_connected handle_writable
send fd frame m =
    if_connected (find fd m)
      (λ st. handle_writable fd (
        update_interest fd true
          (put fd (record st { output_buffer = st.output_buffer ++ frame }) m)))
      m
