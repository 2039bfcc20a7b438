-- ===== src/ConnectionManager/Output/Stream.antt =====
-- src/connection_manager.cc: the bytes that leave for a descriptor.
use hxrpc.Common.{
  ℕ, zero, suc, ◌+◌, ◌-◌, ◌≤◌, ◌≡◌, ◌≢◌, refl, sym, subst, ap, ◌∙◌, ◌⊎◌, inl, inr, true, List, [],
  ◌∷◌, ◌++◌, none, some, Bytes, if◌then◌else◌, ◌==◌, length, take, drop, min, arith, append-nil,
  append_assoc, Bool-cases, Option-cases, take-append-drop, drop-drop, drop_all, length-append,
  drop-append_le, nat_eq, lookup-insert_self, lookup-insert, ==_iff,
}
use hxrpc.ConnectionManager.Output.{
  Flush, FlushEnd, flushed, blocked, broken, flush, finish_flush, write_out, handle_writable, send,
}
use hxrpc.ConnectionManager.State.{
  ConnectionState, Manager, SendResult, written, find, put, update_interest, is_listener,
  find-close_self, find-close, wire-close,
}

-- All that ::send took for a descriptor, in order.
abbrev pub delivered : ℕ → List (ℕ × Bytes) → Bytes
delivered fd [] = []
delivered fd ((k, b) ∷ w) = if k == fd then b ++ delivered fd w else delivered fd w

-- What is buffered and not sent.
abbrev pub pending : ConnectionState → Bytes
pending st = drop st.bytes_sent st.output_buffer

-- The offset lies in the buffer.
abbrev pub IsInBuffer : ConnectionState → Type 0
IsInBuffer st = st.bytes_sent ≤ length st.output_buffer

pub delivered-append_self :
    (fd : ℕ) (w : List (ℕ × Bytes)) (b : Bytes)
    → delivered fd (w ++ (fd, b) ∷ []) ≡ delivered fd w ++ b
delivered-append_self fd [] b = ground (arith, append-nil b)
delivered-append_self fd ((k, c) ∷ w) b =
    ground (arith, delivered-append_self fd w b, append_assoc c (delivered fd w) b)

delivered-append_ne :
    (fd j : ℕ) (w : List (ℕ × Bytes)) (b : Bytes)
    → fd ≢ j
    → delivered j (w ++ (fd, b) ∷ []) ≡ delivered j w
delivered-append_ne fd j [] b h = ground arith
delivered-append_ne fd j ((k, c) ∷ w) b h = ground (arith, delivered-append_ne fd j w b h)

pub record FlushesWell (output : Bytes) (n : ℕ) (r : Flush) : Type 0 where
  pub no_less : n ≤ r.bytes_sent
  pub no_more : r.bytes_sent ≤ length output
  pub all_sent : r.ending ≡ flushed → r.bytes_sent ≡ length output

pub flush-FlushesWell :
    (output : Bytes) (n : ℕ) (rs : List SendResult)
    → n ≤ length output
    → FlushesWell output n (flush output n rs)
unfolding flush
flush-FlushesWell output n [] h = ground arith
flush-FlushesWell output n (written zero ∷ rs) h = ground arith
flush-FlushesWell output n (written (suc k) ∷ rs) h =
    ground (arith, flush-FlushesWell output (n + min (suc k) (length output - n)) rs)
flush-FlushesWell output n (SendResult.interrupted ∷ rs) h =
    ground (arith, flush-FlushesWell output n rs)
flush-FlushesWell output n (SendResult.would_block ∷ rs) h = ground arith
flush-FlushesWell output n (SendResult.failed ∷ rs) h = ground arith

-- What is taken and what is left make up what was pending.
taken-pending :
    (output : Bytes) (n k : ℕ)
    → n ≤ k
    → take (k - n) (drop n output) ++ drop k output ≡ drop n output
taken-pending output n k h =
    let e : n + (k - n) ≡ k = omega arith in
    ap (λ j. take (k - n) (drop n output) ++ drop j output) (sym e)
    ∙ ap (◌++◌ (take (k - n) (drop n output))) (sym (drop-drop n (k - n) output))
    ∙ take-append-drop (k - n) (drop n output)

-- The connection is gone, or its stream is `before` and its offset is in its buffer.
abbrev pub Streams : ℕ → Bytes → Manager → Type 0
Streams fd before m =
    (find fd m ≡ none)
    ⊎ ((st : ConnectionState) × (find fd m ≡ some st)
        × IsInBuffer st
        × (delivered fd m.wire ++ pending st ≡ before))

finish_flush-Streams :
    (fd : ℕ) (st : ConnectionState) (m : Manager) (ending : FlushEnd)
    → IsInBuffer st
    → (ending ≡ flushed → st.bytes_sent ≡ length st.output_buffer)
    → Streams fd (delivered fd m.wire ++ pending st) (finish_flush ending fd st m)
unfolding finish_flush update_interest
finish_flush-Streams fd st m flushed h all = inr (
  record st { output_buffer = []; bytes_sent = 0 },
  lookup-insert_self fd _ m.connections,
  omega arith,
  ap (◌++◌ (delivered fd m.wire))
      (sym (drop_all st.bytes_sent st.output_buffer (omega (arith, all refl)))),
)
finish_flush-Streams fd st m blocked h all =
    inr (st, lookup-insert_self fd st m.connections, h, refl)
finish_flush-Streams fd st m broken h all = elim (Bool-cases (is_listener m.listen_fd fd)) [
  | inl l ↦ inr (
    st,
    find-close fd fd (put fd st m) (inl l) ∙ lookup-insert_self fd st m.connections,
    h,
    rw (wire-close fd (put fd st m)),
  )
  | inr l ↦ inl (find-close_self fd (put fd st m) l)
]

write_out-Streams :
    (fd : ℕ) (st : ConnectionState) (m : Manager)
    → IsInBuffer st
    → Streams fd (delivered fd m.wire ++ pending st) (write_out fd st m)
unfolding write_out
write_out-Streams fd st m h =
    let r = flush st.output_buffer st.bytes_sent m.sends in
    let w = flush-FlushesWell st.output_buffer st.bytes_sent m.sends h in
    let taken = take (r.bytes_sent - st.bytes_sent) (drop st.bytes_sent st.output_buffer) in
    let e : delivered fd (m.wire ++ (fd, taken) ∷ []) ++ drop r.bytes_sent st.output_buffer
        ≡ delivered fd m.wire ++ pending st =
      ap (λ d. d ++ drop r.bytes_sent st.output_buffer) (delivered-append_self fd m.wire taken)
      ∙ append_assoc (delivered fd m.wire) taken (drop r.bytes_sent st.output_buffer)
      ∙ ap (◌++◌ (delivered fd m.wire))
          (taken-pending st.output_buffer st.bytes_sent r.bytes_sent w.no_less) in
    subst (λ b. Streams fd b (write_out fd st m)) e
      (finish_flush-Streams fd (record st { bytes_sent = r.bytes_sent })
        (record m { sends = r.sends; wire = m.wire ++ (fd, taken) ∷ [] }) r.ending w.no_more
        w.all_sent)

pub handle_writable-Streams :
    (fd : ℕ) (st : ConnectionState) (m : Manager)
    → find fd m ≡ some st
    → IsInBuffer st
    → Streams fd (delivered fd m.wire ++ pending st) (handle_writable fd m)
unfolding handle_writable
handle_writable-Streams fd st m e h = rw e (write_out-Streams fd st m h)

-- Send to a connection whose count of sent bytes lies within its buffer closes it, or the bytes
-- that the kernel took for it and those still buffered are then those of before followed by the
-- frame: over short writes no byte is lost, repeated or reordered.
pub send-Streams :
    (fd : ℕ) (f : Bytes) (st : ConnectionState) (m : Manager)
    → find fd m ≡ some st
    → IsInBuffer st
    → Streams fd ((delivered fd m.wire ++ pending st) ++ f) (send fd f m)
unfolding send update_interest
send-Streams fd f st m e h =
    rw (e, send)
      (let st' : ConnectionState = record st { output_buffer = st.output_buffer ++ f } in
        let p : delivered fd m.wire ++ pending st' ≡ (delivered fd m.wire ++ pending st) ++ f =
          ap (◌++◌ (delivered fd m.wire)) (drop-append_le st.bytes_sent st.output_buffer f h)
          ∙ sym (append_assoc (delivered fd m.wire) (pending st) f) in
        let m' : Manager = update_interest fd true (put fd st' m) in
        subst (λ b. Streams fd b (handle_writable fd m')) p
          (handle_writable-Streams fd st' m' (lookup-insert_self fd st' m.connections)
            (omega (arith, h, length-append st.output_buffer f))))

-- The state and the stream of descriptor `j` are the same in both managers.
abbrev pub Untouched : ℕ → Manager → Manager → Type 0
Untouched j m n = (find j n ≡ find j m) × (delivered j n.wire ≡ delivered j m.wire)

module _ (fd j : ℕ) (ne : fd ≢ j) where
  find-put_ne : (st : ConnectionState) (m : Manager) → find j (put fd st m) ≡ find j m
  find-put_ne st m = ground (arith, lookup-insert fd j st m.connections, ==_iff fd j)

  finish_flush_ne :
      (ending : FlushEnd) (st : ConnectionState) (m : Manager)
      → Untouched j m (finish_flush ending fd st m)
  unfolding finish_flush update_interest
  finish_flush_ne flushed st m = (find-put_ne _ m, refl)
  finish_flush_ne blocked st m = (find-put_ne st m, refl)
  finish_flush_ne broken st m =
      (find-close fd j (put fd st m) (inr ne) ∙ find-put_ne st m, rw (wire-close fd (put fd st m)))

  write_out_ne : (st : ConnectionState) (m : Manager) → Untouched j m (write_out fd st m)
  unfolding write_out
  write_out_ne st m =
      let r = flush st.output_buffer st.bytes_sent m.sends in
      let taken = take (r.bytes_sent - st.bytes_sent) (drop st.bytes_sent st.output_buffer) in
      let n : Manager = record m { sends = r.sends; wire = m.wire ++ (fd, taken) ∷ [] } in
      let u = finish_flush_ne r.ending (record st { bytes_sent = r.bytes_sent }) n in
      (u.0, u.1 ∙ delivered-append_ne fd j m.wire taken ne)

  pub handle_writable_ne : (m : Manager) → Untouched j m (handle_writable fd m)
  unfolding handle_writable
  handle_writable_ne m = elim (Option-cases (find fd m)) [
    | inl e ↦ rw (e, handle_writable) (refl, refl)
    | inr (st, e) ↦ rw (e, handle_writable) (write_out_ne st m)
  ]

  -- Send to one descriptor changes neither the connection nor the stream of another.
  pub send_ne : (f : Bytes) (m : Manager) → Untouched j m (send fd f m)
  unfolding send update_interest
  send_ne f m = elim (Option-cases (find fd m)) [
    | inl e ↦ rw (e, send) (refl, refl)
    | inr (st, e) ↦
        rw (e, send)
          (let st' : ConnectionState = record st { output_buffer = st.output_buffer ++ f } in
            let u = handle_writable_ne (update_interest fd true (put fd st' m)) in
            (u.0 ∙ find-put_ne st' m, u.1))
  ]
