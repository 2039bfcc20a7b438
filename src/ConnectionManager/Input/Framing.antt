-- ===== src/ConnectionManager/Input/Framing.antt =====
-- src/connection_manager.cc: the cutting of a byte stream into frames, as a relation.
use hxrpc.Codec.Frame.{frame_bytes, length-frame_bytes}
use hxrpc.Codec.Wire.{read_be32, read_be32-append, read_be32-be32}
use hxrpc.Common.{
  ◌+◌, ◌≤◌, ◌≡◌, ◌≢◌, refl, sym, ap, ◌∙◌, List, [], ◌∷◌, ◌++◌, Bytes, length, take, drop, arith,
  length-append, length-take, take-append-drop, take-append_le, drop-append_le, ltb-false, ap₂,
  subst, take_all, drop_all,
}
use hxrpc.ConnectionManager.Input.{frame, front, max_frame_body_size}

-- What `front` has checked of a frame: its size is in range, and the frame and the rest make up
-- the buffer.
pub record IsFront (input f rest : Bytes) : Type 0 where
  pub not_small : 4 ≤ read_be32 input
  pub not_large : read_be32 input ≤ max_frame_body_size
  pub complete : 4 + read_be32 input ≤ length input
  pub frame_is : f ≡ take (4 + read_be32 input) input
  pub rest_is : rest ≡ drop (4 + read_be32 input) input

pub front_inv : (input f rest : Bytes) → front input ≡ frame f rest → IsFront input f rest
unfolding front
front_inv input f rest e = ground arith

pub front_intro : (input f rest : Bytes) → IsFront input f rest → front input ≡ frame f rest
unfolding front
front_intro input f rest s = rw (
  ltb-false (length input) 4 (omega (arith, s.not_small, s.complete)),
  ltb-false (read_be32 input) 4 s.not_small,
  ltb-false max_frame_body_size (read_be32 input) s.not_large,
  ltb-false (length input) (4 + read_be32 input) s.complete,
  s.frame_is,
  s.rest_is,
)

pub front_parts : (input f rest : Bytes) → front input ≡ frame f rest → f ++ rest ≡ input
front_parts input f rest e =
    let s = front_inv input f rest e in
    ap₂ ◌++◌ s.frame_is s.rest_is ∙ take-append-drop (4 + read_be32 input) input

pub length-front : (input f rest : Bytes) → front input ≡ frame f rest → 8 ≤ length f
length-front input f rest e =
    let s = front_inv input f rest e in
    omega (
      arith,
      s.not_small,
      s.complete,
      ap length s.frame_is,
      length-take (4 + read_be32 input) input,
    )

-- What follows the frame at the front is eight bytes shorter, or more.
pub length-rest :
    (input f rest : Bytes) → front input ≡ frame f rest → length rest + 8 ≤ length input
length-rest input f rest e = omega (
  arith,
  length-front input f rest e,
  ap length (front_parts input f rest e),
  length-append f rest,
)

-- Bytes that arrive later do not change the frame at the front.
pub front-append :
    (input f rest more : Bytes)
    → front input ≡ frame f rest
    → front (input ++ more) ≡ frame f (rest ++ more)
front-append input f rest more e =
    let s = front_inv input f rest e in
    let same : read_be32 (input ++ more) ≡ read_be32 input =
      read_be32-append input more (omega (arith, s.not_small, s.complete)) in
    front_intro (input ++ more) f (rest ++ more) (record {
      not_small = rw same s.not_small;
      not_large = rw same s.not_large;
      complete = omega (arith, same, s.complete, length-append input more);
      frame_is =
          rw same (s.frame_is ∙ sym (take-append_le (4 + read_be32 input) input more s.complete));
      rest_is = rw same (
          ap (λ b. b ++ more) s.rest_is
          ∙ sym (drop-append_le (4 + read_be32 input) input more s.complete));
    })

-- `fs` are the frames cut off the front of `input`, one after the other, and `r` is what is left.
pub data Cuts : Bytes → List Bytes → Bytes → Type 0 where
  stop : {input : Bytes} → Cuts input [] input
  more :
      {input f rest r : Bytes} {fs : List Bytes}
      → front input ≡ frame f rest
      → Cuts rest fs r
      → Cuts input (f ∷ fs) r

-- No further frame can be cut off.
abbrev pub IsStuck : Bytes → Type 0
IsStuck r = (f rest : Bytes) → front r ≢ frame f rest

-- The frames do not depend on how the stream is split: cutting what has arrived, and then its
-- remainder with the bytes that arrive later, cuts the whole stream.
pub Cuts-append :
    {a r : Bytes} {fs gs : List Bytes} {q : Bytes} (b : Bytes)
    → Cuts a fs r
    → Cuts (r ++ b) gs q
    → Cuts (a ++ b) (fs ++ gs) q
Cuts-append b stop d = d
Cuts-append b (more {input} {f} {rest} e c) d =
    more (front-append input f rest b e) (Cuts-append b c d)

frame_injective :
    (a : Bytes) {f g x y : Bytes} → front a ≡ frame f x → front a ≡ frame g y → (f ≡ g) × (x ≡ y)
frame_injective a e d = (cc, cc)

-- A stream is cut into whole frames, with none left over, in one way only.
pub Cuts_unique :
    {a r : Bytes} {fs gs : List Bytes} {q : Bytes}
    → Cuts a fs r
    → IsStuck r
    → Cuts a gs q
    → IsStuck q
    → (fs ≡ gs) × (r ≡ q)
Cuts_unique stop sr stop sq = (refl, refl)
Cuts_unique stop sr (more {f = f} {rest = rest} e d) sq = absurd (sr f rest e)
Cuts_unique (more {f = f} {rest = rest} e c) sr stop sq = absurd (sq f rest e)
Cuts_unique {a} {q} (more {f = f} e c) sr (more {f = g} {fs = gs} e' d) sq =
    let (same, left) = frame_injective a e e' in
    let (more_same, r) = Cuts_unique c sr (subst (λ x. Cuts x gs q) (sym left) d) sq in
    (ap₂ ◌∷◌ same more_same, r)

-- No byte is lost or made up.
pub join : List Bytes → Bytes → Bytes
join [] r = r
join (f ∷ fs) r = f ++ join fs r

pub Cuts-join : {a r : Bytes} {fs : List Bytes} → Cuts a fs r → join fs r ≡ a
unfolding join
Cuts-join stop = refl
Cuts-join (more {input} {f} {rest} e c) = ap (◌++◌ f) (Cuts-join c) ∙ front_parts input f rest e

-- A frame that the codec writes, within the size limit of the connection, is cut off the input
-- whole, whatever follows it.
pub front-frame_bytes :
    (h p rest : Bytes)
    → 4 + length h + length p ≤ max_frame_body_size
    → front (frame_bytes h p ++ rest) ≡ frame (frame_bytes h p) rest
front-frame_bytes h p rest fits = front-append (frame_bytes h p) (frame_bytes h p) [] rest (
    front_intro (frame_bytes h p) (frame_bytes h p) [] (record {
      not_small = omega (arith, size);
      not_large = omega (arith, size);
      complete = omega (arith, size, length-frame_bytes h p);
      frame_is = sym (take_all _ (frame_bytes h p) (omega (arith, size, length-frame_bytes h p)));
      rest_is = sym (drop_all _ (frame_bytes h p) (omega (arith, size, length-frame_bytes h p)));
    }))
  where
    size : read_be32 (frame_bytes h p) ≡ 4 + length h + length p
    size = read_be32-be32 (4 + length h + length p) _ (omega arith)
