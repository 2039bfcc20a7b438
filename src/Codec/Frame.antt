-- ===== src/Codec/Frame.antt =====
-- src/codec.cc, EncodeFrame and SplitFrame: the outer frame
-- [frame_size][header_size][header][payload], both sizes in network order.
use hxrpc.Codec.Wire.{be32, read_be32, length-be32, read_be32-be32, read_be32-lt, be32-read_be32}
use hxrpc.Common.{
  ℕ, ◌+◌, ◌%◌, ◌^◌, ◌<◌, ◌≤◌, ◌≡◌, refl, sym, ap, ◌∙◌, not, ◌++◌, arith, Bytes, codes, IsBytes,
  IsBytes-drop, length, take, drop, ltb, ◌==◌, Expected, value, ◌>>◌, fail_if, length-append,
  take-append, drop-append, ltb-false, ==_iff, length-take, length-drop, take-append-drop,
  drop-drop,
}
use hxrpc.Types.{RpcError, RpcStatusCode}

-- kLengthPrefixSize
abbrev pub length_prefix_size : ℕ
length_prefix_size = 4

abbrev pub invalid_packet_error : Bytes → RpcError
invalid_packet_error m = record { code = RpcStatusCode.invalid_packet; message = m }

unfoldable pub encode_frame : Bytes → Bytes → Expected Bytes RpcError
encode_frame header payload =
    let frame_size = (length_prefix_size + length header + length payload) % 2 ^ 32 in
    value (be32 frame_size ++ (be32 (length header % 2 ^ 32) ++ (header ++ payload)))

unfoldable pub split_frame : Bytes → Expected (Bytes × Bytes) RpcError
split_frame frame = do
  fail_if (ltb (length frame) (length_prefix_size + length_prefix_size))
      (invalid_packet_error (codes "frame is too small"))
  let declared_frame_size = read_be32 frame
  fail_if (not (length frame == length_prefix_size + declared_frame_size))
      (invalid_packet_error (codes "frame length prefix does not match"))
  let header_size = read_be32 (drop length_prefix_size frame)
  fail_if (ltb (length frame) (length_prefix_size + length_prefix_size + header_size))
      (invalid_packet_error (codes "header length exceeds frame size"))
  value (take header_size (drop 8 frame), drop (8 + header_size) frame)

module _ (header payload : Bytes) where
  -- The bytes of a frame whose sizes fit their fields.
  abbrev pub frame_bytes : Bytes
  frame_bytes =
      be32 (4 + length header + length payload) ++ (be32 (length header) ++ (header ++ payload))

  pub encode_frame-fits :
      4 + length header + length payload < 2 ^ 32 → encode_frame header payload ≡ value frame_bytes
  unfolding encode_frame
  encode_frame-fits h =
      let e : (4 + length header + length payload) % 2 ^ 32 ≡ 4 + length header + length payload =
        omega arith in
      let k : length header % 2 ^ 32 ≡ length header = omega arith in rw (e, k)

  pub length-frame_bytes : length frame_bytes ≡ 8 + length header + length payload
  length-frame_bytes = omega (
    arith,
    length-append (be32 (4 + length header + length payload))
        (be32 (length header) ++ (header ++ payload)),
    length-append (be32 (length header)) (header ++ payload),
    length-append header payload,
    length-be32 (4 + length header + length payload),
    length-be32 (length header),
  )

-- What SplitFrame checks, and what it then returns.
pub record Splits (f h p : Bytes) : Type 0 where
  pub large : 8 ≤ length f
  pub declared : length f ≡ 4 + read_be32 f
  pub inside : 8 + read_be32 (drop 4 f) ≤ length f
  pub header_is : h ≡ take (read_be32 (drop 4 f)) (drop 8 f)
  pub payload_is : p ≡ drop (8 + read_be32 (drop 4 f)) f

pub split_frame_intro : (f : Bytes) {h p : Bytes} → Splits f h p → split_frame f ≡ value (h, p)
unfolding split_frame
split_frame_intro f s = rw (
  ltb-false (length f) (4 + 4) (omega (arith, s.large)),
  (==_iff (length f) (4 + read_be32 f)).1 s.declared,
  ltb-false (length f) (4 + 4 + read_be32 (drop 4 f)) (omega (arith, s.inside)),
  s.header_is,
  s.payload_is,
)

pub split_frame_inv : (f : Bytes) {h p : Bytes} → split_frame f ≡ value (h, p) → Splits f h p
unfolding split_frame
split_frame_inv f e = ground arith

module _ (h p : Bytes) (fits : 4 + length h + length p < 2 ^ 32) where
  frame_size_lem : read_be32 (frame_bytes h p) ≡ 4 + length h + length p
  frame_size_lem = read_be32-be32 _ _ fits

  drop_size_lem : drop 4 (frame_bytes h p) ≡ be32 (length h) ++ (h ++ p)
  drop_size_lem = drop-append 4 _ _ (length-be32 _)

  header_size_lem : read_be32 (drop 4 (frame_bytes h p)) ≡ length h
  header_size_lem = rw drop_size_lem (read_be32-be32 (length h) (h ++ p) (omega arith))

  drop_sizes_lem : drop 8 (frame_bytes h p) ≡ h ++ p
  drop_sizes_lem =
      sym (drop-drop 4 4 (frame_bytes h p))
      ∙ ap (drop 4) drop_size_lem
      ∙ drop-append 4 (be32 (length h)) (h ++ p) (length-be32 _)

  -- SplitFrame gives back the two parts of a frame.
  pub split_frame-frame_bytes : split_frame (frame_bytes h p) ≡ value (h, p)
  split_frame-frame_bytes = split_frame_intro (frame_bytes h p) (record {
    large = omega (arith, length-frame_bytes h p);
    declared = omega (arith, length-frame_bytes h p, frame_size_lem);
    inside = omega (arith, length-frame_bytes h p, header_size_lem);
    header_is = rw (header_size_lem, drop_sizes_lem) (sym (take-append (length h) h p refl));
    payload_is = rw header_size_lem (
        sym (drop-append (length h) h p refl)
        ∙ ap (drop (length h)) (sym drop_sizes_lem)
        ∙ drop-drop 8 (length h) (frame_bytes h p));
  })

module _ (f h p : Bytes) (bytes : IsBytes f) (s : Splits f h p) where
  header_length_lem : length h ≡ read_be32 (drop 4 f)
  header_length_lem = omega (
    arith,
    ap length s.header_is,
    length-take (read_be32 (drop 4 f)) (drop 8 f),
    length-drop 8 f,
    s.inside,
  )

  payload_length_lem : 4 + length h + length p ≡ read_be32 f
  payload_length_lem = omega (
    arith,
    ap length s.payload_is,
    length-drop (8 + read_be32 (drop 4 f)) f,
    header_length_lem,
    s.inside,
    s.declared,
  )

  parts_lem : h ++ p ≡ drop 8 f
  parts_lem =
      rw (s.header_is, s.payload_is, ← drop-drop 8 (read_be32 (drop 4 f)) f)
        (take-append-drop (read_be32 (drop 4 f)) (drop 8 f))

  sizes_lem : be32 (length h) ++ (h ++ p) ≡ drop 4 f
  sizes_lem =
      rw
        (
          header_length_lem,
          parts_lem,
          be32-read_be32 (drop 4 f) (IsBytes-drop 4 f bytes)
              (omega (arith, s.large, length-drop 4 f)),
          ← drop-drop 4 4 f,
        )
        (take-append-drop 4 (drop 4 f))

  frame_bytes-Splits : frame_bytes h p ≡ f
  frame_bytes-Splits =
      rw (payload_length_lem, sizes_lem, be32-read_be32 f bytes (omega (arith, s.large)))
        (take-append-drop 4 f)

-- SplitFrame accepts no string of bytes below 256 but the one that EncodeFrame writes for the two
-- parts.
pub encode_frame-split_frame :
    (f h p : Bytes) → IsBytes f → split_frame f ≡ value (h, p) → encode_frame h p ≡ value f
encode_frame-split_frame f h p bytes e =
    let s = split_frame_inv f e in
    encode_frame-fits h p (omega (arith, payload_length_lem f h p bytes s, read_be32-lt f bytes))
    ∙ ap value (frame_bytes-Splits f h p bytes s)
