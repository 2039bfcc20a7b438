-- ===== src/Benchmark/Printed.antt =====
-- benchmark/client/client.cc: options that are written on the command line are read back.
use native.Mathlib.Nat.{pow-suc}
use hxrpc.Benchmark.Options.{
  BenchmarkOptions, IsUsable, IsPositive, skip_digits, with_rest, from_chars, positive,
  parse_positive_int, flag_of, parse_options,
}
use hxrpc.Common.{
  ℕ, zero, suc, ◌+◌, ◌%◌, ◌/◌, ◌^◌, ◌<◌, ◌≡◌, refl, true, List, [], ◌∷◌, some, Bool-cases, inl, inr,
  arith, ltb, ltb→lt, Bytes, codes, same, ◌∙◌,
}
use hxrpc.Types.Decimal.{
  pos, in_range, is_digit, to_string, digits, read_digits, starts_digit, read_digits-digits,
}

skip_digit : (d : ℕ) (cs : Bytes) → d < 10 → skip_digits ((48 + d) ∷ cs) ≡ skip_digits cs
unfolding skip_digits is_digit
skip_digit d cs h = ground arith

skip_digits-digits :
    (f n : ℕ) (acc : Bytes) → n < 10 ^ f → skip_digits (digits f n acc) ≡ skip_digits acc
unfolding digits skip_digits is_digit
skip_digits-digits zero n acc h = refl
skip_digits-digits (suc f) n acc h = elim (Bool-cases (ltb n 10)) [
  | inl small ↦ rw small (skip_digit n acc (ltb→lt n 10 small))
  | inr big ↦ rw big (
      skip_digits-digits f (n / 10) _ (omega (arith, pow-suc 10 f))
      ∙ skip_digit (n % 10) acc (omega arith))
]

from_chars_digits :
    (c : ℕ) (cs : Bytes) {n : ℕ}
    → is_digit c ≡ true
    → read_digits 0 (c ∷ cs) ≡ n
    → skip_digits (c ∷ cs) ≡ []
    → n < 2 ^ 31
    → from_chars (c ∷ cs) ≡ some (pos n, [])
unfolding from_chars with_rest in_range is_digit
from_chars_digits c cs d e k h = ground arith

parse_positive_int-to_string : (n : ℕ) → IsPositive n → parse_positive_int (to_string n) ≡ some n
unfolding to_string parse_positive_int positive read_digits skip_digits
parse_positive_int-to_string n h =
    let (c, cs, e, d) = starts_digit 19 n [] in
    let reads : read_digits 0 (digits 20 n []) ≡ n = read_digits-digits 20 n [] (omega arith) in
    let skips : skip_digits (digits 20 n []) ≡ [] = skip_digits-digits 20 n [] (omega arith) in
    let read = from_chars_digits c cs d (rw e at reads) (rw e at skips) h.1 in
    rw (e, parse_positive_int, read) (ground arith)

-- The command line that sets all options.
abbrev pub arguments_of : BenchmarkOptions → List Bytes
arguments_of o =
    codes "--concurrency"
    ∷ to_string o.concurrency
    ∷ codes "--requests"
    ∷ to_string o.requests_per_worker
    ∷ codes "--timeout-ms"
    ∷ to_string o.timeout_ms
    ∷ []

-- ParseOptions reads back the three options that a command line sets, if they are ints above 0,
-- whatever the options were before.
pub parse_options-arguments_of :
    (o old : BenchmarkOptions) → IsUsable o → parse_options old (arguments_of o) ≡ o
unfolding parse_options flag_of same codes
parse_options-arguments_of o old u = rw (
  parse_positive_int-to_string o.concurrency u.some_workers,
  parse_positive_int-to_string o.requests_per_worker u.some_requests,
  parse_positive_int-to_string o.timeout_ms u.some_time,
)
