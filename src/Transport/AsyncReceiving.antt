-- ===== src/Transport/AsyncReceiving.antt =====
-- src/client_transport.cc: the receiving coroutines against the blocking loops.
use hxrpc.Codec.Wire.{read_be32}
use hxrpc.Common.{
  ℕ, zero, suc, ◌-◌, ◌≤◌, ◌≡◌, refl, List, ◌∷◌, Bytes, length, leb, arith, Bool-cases, inl, inr,
  length-append, length-drop,
}
use hxrpc.ConnectionManager.Input.Framing.{front_inv}
use hxrpc.ConnectionManager.Input.{front, frame}
use hxrpc.Transport.Async.{recv_all_async, receive_body_async, receive_frame_async}
use hxrpc.Transport.Io.{RecvResult, recv_all, receive_frame, receive_body}
use hxrpc.Transport.Receiving.{Carries, nothing, piece, again, recv_all-Gets, read_be32-take}

-- On results that bring enough bytes, the coroutine receives what the blocking loop does.
recv_all_async_same :
    (n : ℕ) {rs rest : List RecvResult} {b : Bytes}
    → Carries rs b rest
    → n ≤ length b
    → recv_all_async n rs ≡ recv_all n rs
unfolding recv_all_async recv_all
recv_all_async_same zero s h = refl
recv_all_async_same (suc n) nothing h = absurd (omega arith)
recv_all_async_same (suc n) (again s) h = recv_all_async_same (suc n) s h
recv_all_async_same (suc n) (piece {b} x c s) h = elim (Bool-cases (leb (suc n) (length (x ∷ c)))) [
  | inl enough ↦ rw enough refl
  | inr short ↦
      rw (short, recv_all_async_same (n - length c) s (ground (arith, length-append c b))) refl
]

-- ReceiveFrameAsync returns what ReceiveFrame does on results that bring a whole frame.
pub receive_frame_async_same :
    {rs rest : List RecvResult} {b : Bytes} (f r : Bytes)
    → Carries rs b rest
    → front b ≡ frame f r
    → receive_frame_async rs ≡ receive_frame rs
unfolding receive_frame_async receive_frame receive_body_async receive_body
receive_frame_async_same {rs} {rest} {b} f r c e =
    let s = front_inv b f r e in
    let g = recv_all-Gets 4 c (omega (arith, s.not_small, s.complete)) in
    let head = recv_all_async_same 4 c (omega (arith, s.not_small, s.complete)) in
    let size = read_be32-take b (omega (arith, s.not_small, s.complete)) in
    let body =
      recv_all_async_same (read_be32 b) g.left (omega (arith, s.complete, length-drop 4 b)) in
    rw
      (
        receive_frame_async, receive_frame, head, g.gets, receive_body_async, receive_body, size,
        head, body,
      )
      refl
