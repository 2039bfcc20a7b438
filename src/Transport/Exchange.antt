-- ===== src/Transport/Exchange.antt =====
-- src/client_transport.cc: a round trip whose connection works.
use hxrpc.Codec.Frame.{frame_bytes}
use hxrpc.Common.{◌+◌, ◌≤◌, ◌≡◌, refl, ap, ◌∙◌, List, ◌++◌, Bytes, length, ℕ, value}
use hxrpc.ConnectionManager.Input.Framing.{front-frame_bytes}
use hxrpc.ConnectionManager.Input.{max_frame_body_size}
use hxrpc.Transport.Io.{RecvResult, send_all}
use hxrpc.Transport.Receiving.{Carries, receive_frame-front}
use hxrpc.Transport.{
  Transport, RoundTripSteps, borrow_connection, after_borrow, exchange_on, return_connection,
  round_trip,
}
use hxrpc.Types.{Endpoint}

-- If a connection is borrowed, the frame is sent whole, and a frame of the codec within the size
-- limit arrives, in any pieces, then RoundTrip returns that frame and gives the connection back.
pub round_trip-frame_bytes :
    (endpoint : Endpoint) (frame : Bytes) (steps : RoundTripSteps) (t : Transport) (fd : ℕ)
    (h p more : Bytes) (rest : List RecvResult)
    → (borrow_connection endpoint steps t).0 ≡ value fd
    → (send_all frame 0 steps.sends).result ≡ value tt
    → Carries steps.recvs (frame_bytes h p ++ more) rest
    → 4 + length h + length p ≤ max_frame_body_size
    → round_trip endpoint frame steps t ≡ (
      value (frame_bytes h p),
      return_connection endpoint fd (borrow_connection endpoint steps t).1,
    )
unfolding round_trip
round_trip-frame_bytes endpoint frame steps t fd h p more rest borrowed sent carried fits =
    let got =
      (receive_frame-front (frame_bytes h p) more carried (front-frame_bytes h p more fits)).0 in
    ap (λ c. after_borrow c endpoint frame steps (borrow_connection endpoint steps t).1) borrowed
    ∙ unfold after_borrow exchange_on in rw (sent, got, exchange_on) refl
