-- ===== src/Types/Decimal.antt =====
-- std::to_string and std::stoul on byte strings. Both belong to the C++ standard library; the
-- model follows its documented behaviour: to_string prints the decimal digits with no leading
-- zero; stoul skips white space, takes an optional sign, reads the longest run of digits, wraps a
-- negated value to 64 bits, and throws when there is no digit or the value does not fit.
use native.Mathlib.Nat.{pow-suc}
use hxrpc.Common.{
  ℕ, zero, suc, ◌+◌, ◌-◌, ◌*◌, ◌/◌, ◌%◌, ◌^◌, ◌<◌, ◌≡◌, refl, Bool, true, false, ◌&&◌, ◌||◌, [],
  ◌∷◌, ◌++◌, Option, none, some, arith, ltb, leb, ◌==◌, if◌then◌else◌, Bytes, ap, ltb→lt, le→leb,
  Bool-cases, inl, inr, ◌∙◌,
}

-- The digits of `n` in front of `acc`. The fuel is the number of digits that may still follow.
unfoldable pub digits : ℕ → ℕ → Bytes → Bytes
digits zero n acc = acc
digits (suc f) n acc =
    let rest = digits f (n / 10) ((48 + n % 10) ∷ acc) in if ltb n 10 then (48 + n) ∷ acc else rest

-- 20 digits hold every 64-bit number.
unfoldable pub to_string : ℕ → Bytes
unfolding digits
to_string n = digits 20 n []

unfoldable pub is_digit : ℕ → Bool
is_digit c = leb 48 c && leb c 57

-- `isspace` in the C locale
unfoldable pub is_space : ℕ → Bool
is_space c = c == 32 || leb 9 c && leb c 13

unfoldable pub skip_spaces : Bytes → Bytes
unfolding is_space
skip_spaces [] = []
skip_spaces (c ∷ cs) = if is_space c then skip_spaces cs else c ∷ cs

-- The value of the longest run of digits at the front, after a value `v` read so far.
unfoldable pub read_digits : ℕ → Bytes → ℕ
unfolding is_digit
read_digits v [] = v
read_digits v (c ∷ cs) =
    let rest = read_digits (v * 10 + (c - 48)) cs in if is_digit c then rest else v

-- No digit: `std::invalid_argument`. Above ULONG_MAX: `std::out_of_range`.
unfoldable pub unsigned_digits : Bytes → Option ℕ
unfolding is_digit read_digits
unsigned_digits [] = none
unsigned_digits (c ∷ cs) =
    if is_digit c
    then (let v = read_digits 0 (c ∷ cs) in if ltb v (2 ^ 64) then some v else none)
    else none

negate64 : Option ℕ → Option ℕ
negate64 none = none
negate64 (some v) = some ((2 ^ 64 - v) % 2 ^ 64)

signed_digits : Bytes → Option ℕ
unfolding unsigned_digits negate64
signed_digits [] = none
signed_digits (c ∷ cs) =
    if c == b'-'
    then negate64 (unsigned_digits cs)
    else if c == b'+'
    then unsigned_digits cs
    else unsigned_digits (c ∷ cs)

-- `std::stoul`; `none` is an exception.
unfoldable pub stoul : Bytes → Option ℕ
unfolding signed_digits skip_spaces
stoul s = signed_digits (skip_spaces s)

-- A signed number, for std::stoi: `negsuc n` is -(n + 1).
pub data ℤ : Type 0 where
  pos : ℕ → ℤ
  negsuc : ℕ → ℤ

unfoldable pub negative : ℕ → ℤ
negative zero = pos 0
negative (suc n) = negsuc n

-- A magnitude up to `limit`, with its sign.
unfoldable pub in_range : ℕ → (ℕ → ℤ) → Bytes → Option ℤ
unfolding is_digit read_digits
in_range limit sign [] = none
in_range limit sign (c ∷ cs) =
    if is_digit c
    then (let v = read_digits 0 (c ∷ cs) in if leb v limit then some (sign v) else none)
    else none

signed_int : Bytes → Option ℤ
unfolding in_range negative
signed_int [] = none
signed_int (c ∷ cs) =
    if c == b'-'
    then in_range (2 ^ 31) negative cs
    else if c == b'+'
    then in_range (2 ^ 31 - 1) pos cs
    else in_range (2 ^ 31 - 1) pos (c ∷ cs)

-- `std::stoi`; `none` is an exception.
unfoldable pub stoi : Bytes → Option ℤ
unfolding signed_int skip_spaces
stoi s = signed_int (skip_spaces s)

-- The first byte, if any, is no digit.
abbrev pub StopsDigits : Bytes → Type 0
StopsDigits [] = Unit {0}
StopsDigits (c ∷ cs) = is_digit c ≡ false

read_digits-stops : (v : ℕ) (rest : Bytes) → StopsDigits rest → read_digits v rest ≡ v
unfolding read_digits is_digit
read_digits-stops v [] h = refl
read_digits-stops v (c ∷ cs) h = ground arith

read_digits_digit :
    (v d : ℕ) (cs : Bytes) → d < 10 → read_digits v ((48 + d) ∷ cs) ≡ read_digits (v * 10 + d) cs
unfolding read_digits is_digit
read_digits_digit v d cs h =
    let e : 48 + d - 48 ≡ d = omega arith in
    rw (le→leb 48 (48 + d) (omega arith), le→leb (48 + d) 57 (omega arith), e)

-- The digits that `digits` puts in front read back to the number.
pub read_digits-digits :
    (f n : ℕ) (acc : Bytes) → n < 10 ^ f → read_digits 0 (digits f n acc) ≡ read_digits n acc
unfolding digits
read_digits-digits zero n acc h = let e : 0 ≡ n = omega arith in rw (← e)
read_digits-digits (suc f) n acc h = elim (Bool-cases (ltb n 10)) [
  | inl small ↦
      rw small
        (read_digits_digit 0 n acc (ltb→lt n 10 small) ∙ ap (λ v. read_digits v acc) (omega arith))
  | inr big ↦ rw big (
      read_digits-digits f (n / 10) _ (omega (arith, pow-suc 10 f))
      ∙ read_digits_digit (n / 10) (n % 10) acc (omega arith)
      ∙ ap (λ v. read_digits v acc) (omega arith))
]

pub starts_digit :
    (f n : ℕ) (acc : Bytes)
    → (c : ℕ) × (cs : Bytes) × (digits (suc f) n acc ≡ c ∷ cs) × (is_digit c ≡ true)
unfolding digits is_digit
starts_digit zero n acc = elim (Bool-cases (ltb n 10)) [
  | inl small ↦ (48 + n, acc, rw small, ground arith)
  | inr big ↦ (48 + n % 10, acc, rw big, ground arith)
]
starts_digit (suc f) n acc = elim (Bool-cases (ltb n 10)) [
  | inl small ↦ (48 + n, acc, rw small, ground arith)
  | inr big ↦ rw big (starts_digit f (n / 10) ((48 + n % 10) ∷ acc))
]

digits-append : (f n : ℕ) (acc rest : Bytes) → digits f n acc ++ rest ≡ digits f n (acc ++ rest)
unfolding digits
digits-append zero n acc rest = refl
digits-append (suc f) n acc rest =
    ground (arith, digits-append f (n / 10) ((48 + n % 10) ∷ acc) rest)

stoul_of_digits :
    (c : ℕ) (cs : Bytes) (v : ℕ)
    → is_digit c ≡ true
    → read_digits 0 (c ∷ cs) ≡ v
    → v < 2 ^ 64
    → stoul (c ∷ cs) ≡ some v
unfolding stoul is_digit
stoul_of_digits c cs v d e h = ground arith

-- std::stoul reads back the number below 2 ^ 64 that std::to_string printed, whatever no digit
-- follows.
pub stoul-to_string :
    (n : ℕ) (rest : Bytes) → n < 2 ^ 64 → StopsDigits rest → stoul (to_string n ++ rest) ≡ some n
unfolding to_string
stoul-to_string n rest h stops =
    let (c, cs, e, d) = starts_digit 19 n rest in
    let reads : read_digits 0 (digits 20 n rest) ≡ n =
      read_digits-digits 20 n rest (omega arith) ∙ read_digits-stops n rest stops in
    rw (digits-append 20 n [] rest, e) (stoul_of_digits c cs n d (rw e at reads) h)
