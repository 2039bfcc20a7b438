-- ===== src/Codec/Wire.antt =====
-- src/codec.cc, the 4-byte length fields: `htonl` and the copy of the word into the frame,
-- `std::memcpy` out of the frame and `ntohl`. Network order is big-endian on every host.
use hxrpc.Common.{
  ℕ, ◌+◌, ◌*◌, ◌/◌, ◌%◌, ◌^◌, ◌<◌, ◌≤◌, ◌≡◌, refl, [], ◌∷◌, ◌++◌, arith, Bytes, IsBytes, length,
  take,
}

-- `htonl(word)`, as the four bytes that `append` copies.
unfoldable pub be32 : ℕ → Bytes
be32 n = (n / 0x1000000 % 256) ∷ (n / 0x10000 % 256) ∷ (n / 0x100 % 256) ∷ (n % 256) ∷ []

-- `std::memcpy(&word, view.data(), 4)` and `ntohl(word)`. The source checks the size first; a
-- shorter view is not read, and gives the word's initial value.
unfoldable pub read_be32 : Bytes → ℕ
read_be32 (a ∷ b ∷ c ∷ d ∷ _) = ((a * 256 + b) * 256 + c) * 256 + d
read_be32 _ = 0

pub length-be32 : (n : ℕ) → length (be32 n) ≡ 4
unfolding be32
length-be32 n = refl

pub read_be32-be32 : (n : ℕ) (rest : Bytes) → n < 2 ^ 32 → read_be32 (be32 n ++ rest) ≡ n
unfolding be32 read_be32
read_be32-be32 n rest h = omega arith

pub IsBytes-be32 : (n : ℕ) → IsBytes (be32 n)
unfolding be32
IsBytes-be32 n = omega arith

pub read_be32-append : (f rest : Bytes) → 4 ≤ length f → read_be32 (f ++ rest) ≡ read_be32 f
unfolding read_be32
read_be32-append (a ∷ b ∷ c ∷ d ∷ f) rest h = refl
read_be32-append (a ∷ b ∷ c ∷ []) rest h = absurd (omega arith)
read_be32-append (a ∷ b ∷ []) rest h = absurd (omega arith)
read_be32-append (a ∷ []) rest h = absurd (omega arith)
read_be32-append [] rest h = absurd (omega arith)

pub read_be32-lt : (f : Bytes) → IsBytes f → read_be32 f < 2 ^ 32
unfolding read_be32
read_be32-lt (a ∷ b ∷ c ∷ d ∷ f) h = omega arith
read_be32-lt (a ∷ b ∷ c ∷ []) h = omega arith
read_be32-lt (a ∷ b ∷ []) h = omega arith
read_be32-lt (a ∷ []) h = omega arith
read_be32-lt [] h = omega arith

-- Four bytes that were read are the bytes that would be written.
pub be32-read_be32 : (f : Bytes) → IsBytes f → 4 ≤ length f → be32 (read_be32 f) ≡ take 4 f
unfolding be32 read_be32
be32-read_be32 (a ∷ b ∷ c ∷ d ∷ f) i h = ground arith
be32-read_be32 (a ∷ b ∷ c ∷ []) i h = absurd (omega arith)
be32-read_be32 (a ∷ b ∷ []) i h = absurd (omega arith)
be32-read_be32 (a ∷ []) i h = absurd (omega arith)
be32-read_be32 [] i h = absurd (omega arith)
