-- ===== src/Transport/Receiving.antt =====
-- src/client_transport.cc: what the send and the receive loop move.
use hxrpc.Codec.Wire.{read_be32, read_be32-append}
use hxrpc.Common.{
  ℕ, zero, suc, ◌+◌, ◌-◌, ◌≤◌, ◌≡◌, refl, sym, ap, subst, ◌∙◌, List, [], ◌∷◌, ◌++◌, Bytes, length,
  take, drop, min, leb, value, arith, ltb-false, take-append_le, drop-append_le, length-append,
  length-take, length-drop, inl, inr, Bool-cases, take-append-drop, drop-drop, ◌↔◌,
}
use hxrpc.ConnectionManager.Input.Framing.{IsFront, front_inv}
use hxrpc.ConnectionManager.Input.{front, frame}
use hxrpc.Transport.Io.{
  SendResult, written, RecvResult, received, send_all, Received, recv_all, leave, receive_frame,
  receive_body, max_frame_size,
}

-- `Carries rs b rest`: the results `rs` bring the bytes `b`, in pieces of any size and over any
-- interrupted calls, before `rest`.
pub data Carries : List RecvResult → Bytes → List RecvResult → Type 0 where
  nothing : {rest : List RecvResult} → Carries rest [] rest
  piece :
      {rs rest : List RecvResult} {b : Bytes} (x : ℕ) (c : Bytes)
      → Carries rs b rest
      → Carries (received (x ∷ c) ∷ rs) (x ∷ (c ++ b)) rest
  again :
      {rs rest : List RecvResult} {b : Bytes}
      → Carries rs b rest
      → Carries (RecvResult.interrupted ∷ rs) b rest

leave-Carries :
    {rs rest : List RecvResult} {b : Bytes} (c : Bytes)
    → Carries rs b rest
    → Carries (leave c rs) (c ++ b) rest
leave-Carries [] s = s
leave-Carries (x ∷ c) s = piece x c s

-- What RecvAll returns if it gets `n` bytes of `b`.
pub record Gets (n : ℕ) (b : Bytes) (rest : List RecvResult) (r : Received) : Type 0 where
  pub gets : r.result ≡ value (take n b)
  pub left : Carries r.recvs (drop n b) rest

take_more : (n : ℕ) (c b : Bytes) → length c ≤ n → c ++ take (n - length c) b ≡ take n (c ++ b)
take_more n [] b h = ap (λ k. take k b) (omega arith)
take_more zero (x ∷ c) b h = absurd (omega arith)
take_more (suc n) (x ∷ c) b h =
    let e : suc n - suc (length c) ≡ n - length c = omega arith in
    ap (◌∷◌ x) (ap (λ k. c ++ take k b) e ∙ take_more n c b (omega arith))

drop_more : (n : ℕ) (c b : Bytes) → length c ≤ n → drop (n - length c) b ≡ drop n (c ++ b)
drop_more n [] b h = ap (λ k. drop k b) (omega arith)
drop_more zero (x ∷ c) b h = absurd (omega arith)
drop_more (suc n) (x ∷ c) b h =
    let e : suc n - suc (length c) ≡ n - length c = omega arith in
    ap (λ k. drop k b) e ∙ drop_more n c b (omega arith)

pub recv_all-Gets :
    (n : ℕ) {rs rest : List RecvResult} {b : Bytes}
    → Carries rs b rest
    → n ≤ length b
    → Gets n b rest (recv_all n rs)
unfolding recv_all
recv_all-Gets zero s h = record { gets = refl; left = s }
recv_all-Gets (suc n) nothing h = absurd (omega arith)
recv_all-Gets (suc n) (again s) h =
    let g = recv_all-Gets (suc n) s h in record { gets = g.gets; left = g.left }
recv_all-Gets (suc n) {rest} (piece {rs} {b} x c s) h =
    elim (Bool-cases (leb (suc n) (length (x ∷ c)))) [
      | inl enough ↦
          rw (enough, recv_all)
            (record {
              gets = ap value (sym (take-append_le (suc n) (x ∷ c) b (ground arith)));
              left =
                  subst (λ d. Carries (leave (drop (suc n) (x ∷ c)) rs) d rest)
                    (sym (drop-append_le (suc n) (x ∷ c) b (ground arith)))
                    (leave-Carries (drop (suc n) (x ∷ c)) s);
            })
      | inr short ↦
          let small : length c ≤ n = ground arith in
          let g = recv_all-Gets (n - length c) s (omega (arith, length-append c b)) in
          rw (short, g.gets, recv_all)
            (record {
              gets = ap (λ d. value (x ∷ d)) (take_more n c b small);
              left =
                  subst (λ d. Carries (recv_all (n - length c) rs).recvs d rest)
                    (drop_more n c b small) g.left;
            })
    ]

-- The length field that was received is the one at the front of the bytes.
pub read_be32-take : (b : Bytes) → 4 ≤ length b → read_be32 (take 4 b) ≡ read_be32 b
read_be32-take b h =
    sym (read_be32-append (take 4 b) (drop 4 b) (omega (arith, length-take 4 b)))
    ∙ ap read_be32 (take-append-drop 4 b)

take-add : (n : ℕ) (b : Bytes) → 4 ≤ length b → take 4 b ++ take n (drop 4 b) ≡ take (4 + n) b
take-add n b h =
    let size : length (take 4 b) ≡ 4 = omega (arith, length-take 4 b) in
    let e : 4 + n - length (take 4 b) ≡ n = omega arith in
    ap (λ k. take 4 b ++ take k (drop 4 b)) (sym e)
    ∙ take_more (4 + n) (take 4 b) (drop 4 b) (omega arith)
    ∙ ap (take (4 + n)) (take-append-drop 4 b)

receive_body-Gets :
    (b : Bytes) {rs rest : List RecvResult} (f r : Bytes)
    → IsFront b f r
    → Carries rs (drop 4 b) rest
    → ((receive_body (take 4 b) rs).result ≡ value f)
      × Carries (receive_body (take 4 b) rs).recvs r rest
unfolding receive_body
receive_body-Gets b {rs} {rest} f r s c =
    let large : 4 ≤ length b = omega (arith, s.not_small, s.complete) in
    let size = read_be32-take b large in
    let g = recv_all-Gets (read_be32 b) c (omega (arith, s.complete, length-drop 4 b)) in
    rw
      (
        size,
        ltb-false (read_be32 b) 4 s.not_small,
        ltb-false max_frame_size (read_be32 b) s.not_large,
        g.gets,
        receive_body,
      )
      (
        ap value (take-add (read_be32 b) b large ∙ sym s.frame_is),
        subst (λ d. Carries (recv_all (read_be32 b) rs).recvs d rest)
            (drop-drop 4 (read_be32 b) b ∙ sym s.rest_is) g.left,
      )

-- The client cuts the bytes of a connection as the server does: ReceiveFrame returns the frame
-- that ProcessInput would take off the same bytes, in whatever pieces they arrive, and leaves what
-- follows it in the socket.
pub receive_frame-front :
    {rs rest : List RecvResult} {b : Bytes} (f r : Bytes)
    → Carries rs b rest
    → front b ≡ frame f r
    → ((receive_frame rs).result ≡ value f) × Carries (receive_frame rs).recvs r rest
unfolding receive_frame
receive_frame-front {rs} {rest} {b} f r c e =
    let s = front_inv b f r e in
    let g = recv_all-Gets 4 c (omega (arith, s.not_small, s.complete)) in
    rw (g.gets, receive_frame) (receive_body-Gets b f r s g.left)

-- SendAll from an offset within the data reports success exactly when every byte from there on was
-- taken, and never counts more.
pub offset-send_all :
    (b : Bytes) (n : ℕ) (rs : List SendResult)
    → n ≤ length b
    → (n ≤ (send_all b n rs).offset)
      × ((send_all b n rs).offset ≤ length b)
      × (((send_all b n rs).result ≡ value tt) ↔ ((send_all b n rs).offset ≡ length b))
unfolding send_all
offset-send_all b n [] h = ground arith
offset-send_all b n (written zero ∷ rs) h = ground arith
offset-send_all b n (written (suc k) ∷ rs) h =
    ground (arith, offset-send_all b (n + min (suc k) (length b - n)) rs)
offset-send_all b n (SendResult.interrupted ∷ rs) h = ground (arith, offset-send_all b n rs)
offset-send_all b n (SendResult.would_block reason ready ∷ rs) h = ground arith
offset-send_all b n (SendResult.failed reason ∷ rs) h = ground arith
