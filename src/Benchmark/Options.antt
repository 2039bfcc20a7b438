-- ===== src/Benchmark/Options.antt =====
-- benchmark/client/client.cc: the options of the command line.
use hxrpc.Common.{
  ℕ, ◌-◌, ◌^◌, ◌<◌, ◌≡◌, ◌&&◌, ◌||◌, List, [], ◌∷◌, Option, none, some, arith, ltb, ◌==◌,
  if◌then◌else◌, Bytes, codes, same, is_empty, ◌∙◌, ap, inl, inr, Bool-cases, Option-cases, zero,
  suc,
}
use hxrpc.Types.Decimal.{ℤ, pos, negsuc, in_range, negative, is_digit, read_digits}

pub record BenchmarkOptions : Type 0 where
  pub concurrency : ℕ
  pub requests_per_worker : ℕ
  pub timeout_ms : ℕ

abbrev pub default_options : BenchmarkOptions
default_options = record { concurrency = 32; requests_per_worker = 4; timeout_ms = 1500 }

unfoldable pub skip_digits : Bytes → Bytes
skip_digits [] = []
skip_digits (c ∷ cs) = if is_digit c then skip_digits cs else c ∷ cs

unfoldable pub with_rest : Bytes → Option ℤ → Option (ℤ × Bytes)
unfolding skip_digits
with_rest s none = none
with_rest s (some v) = some (v, skip_digits s)

-- `std::from_chars` for an int in base 10: no white space, no plus sign; the value and the text
-- at `ptr`, or `none` for an error code.
unfoldable pub from_chars : Bytes → Option (ℤ × Bytes)
unfolding with_rest
from_chars [] = none
from_chars (c ∷ cs) =
    if c == b'-'
    then with_rest cs (in_range (2 ^ 31) negative cs)
    else with_rest (c ∷ cs) (in_range (2 ^ 31 - 1) pos (c ∷ cs))

unfoldable pub positive : ℤ → Bytes → Option ℕ
positive (pos n) rest = if is_empty rest && ltb 0 n then some n else none
positive (negsuc n) rest = none

unfoldable pub parse_positive_int : Bytes → Option ℕ
unfolding from_chars positive
parse_positive_int raw = elim (from_chars raw) [ none ↦ none | some (v, rest) ↦ positive v rest ]

pub data Flag : Type 0 where
  concurrency_flag : Flag
  requests_flag : Flag
  timeout_flag : Flag

-- The tests on `arg`.
unfoldable pub flag_of : Bytes → Option Flag
flag_of arg =
    if same arg (codes "--concurrency")
    then some concurrency_flag
    else if same arg (codes "--requests") || same arg (codes "--requests-per-worker")
    then some requests_flag
    else if same arg (codes "--timeout-ms")
    then some timeout_flag
    else none

abbrev pub set_option : Flag → ℕ → BenchmarkOptions → BenchmarkOptions
set_option concurrency_flag n o = record o { concurrency = n }
set_option requests_flag n o = record o { requests_per_worker = n }
set_option timeout_flag n o = record o { timeout_ms = n }

-- A value that is no positive number leaves the option as it is.
abbrev pub set_if_some : Flag → Option ℕ → BenchmarkOptions → BenchmarkOptions
set_if_some flag none o = o
set_if_some flag (some n) o = set_option flag n o

-- The loop of ParseOptions over the arguments behind the program's name; a flag that stands last
-- has no value and is passed over, as an unknown argument is.
unfoldable pub parse_options : BenchmarkOptions → List Bytes → BenchmarkOptions
unfolding flag_of parse_positive_int
parse_options o [] = o
parse_options o (arg ∷ []) = o
parse_options o (arg ∷ next ∷ rest) = elim (flag_of arg) [
  | none ↦ parse_options o (next ∷ rest)
  | some flag ↦ parse_options (set_if_some flag (parse_positive_int next) o) rest
]

-- What an int above 0 can hold.
abbrev pub IsPositive : ℕ → Type 0
IsPositive n = (0 < n) × (n < 2 ^ 31)

pub record IsUsable (o : BenchmarkOptions) : Type 0 where
  pub some_workers : IsPositive o.concurrency
  pub some_requests : IsPositive o.requests_per_worker
  pub some_time : IsPositive o.timeout_ms

in_range-value : (s : Bytes) (n : ℕ) → in_range (2 ^ 31 - 1) pos s ≡ some (pos n) → n < 2 ^ 31
unfolding in_range
in_range-value [] n h = cc
in_range-value (c ∷ cs) n h = ground arith

negative-pos : (v n : ℕ) → negative v ≡ pos n → n ≡ 0
unfolding negative
negative-pos zero n h = ground arith
negative-pos (suc v) n h = cc

in_range-negative : (s : Bytes) (n : ℕ) → in_range (2 ^ 31) negative s ≡ some (pos n) → n ≡ 0
unfolding in_range
in_range-negative [] n h = cc
in_range-negative (c ∷ cs) n h = ground (arith, negative-pos (read_digits 0 (c ∷ cs)) n)

with_rest-some :
    (s : Bytes) (v : Option ℤ) {x : ℤ} {rest : Bytes} → with_rest s v ≡ some (x, rest) → v ≡ some x
unfolding with_rest
with_rest-some s none h = cc
with_rest-some s (some v) h = cc

positive-some : (v : ℤ) (rest : Bytes) {n : ℕ} → positive v rest ≡ some n → (v ≡ pos n) × (0 < n)
unfolding positive
positive-some (pos m) rest h = ground arith
positive-some (negsuc m) rest h = cc

from_chars-pos :
    (s : Bytes) {n : ℕ} {rest : Bytes} → from_chars s ≡ some (pos n, rest) → 0 < n → n < 2 ^ 31
unfolding from_chars
from_chars-pos [] h p = cc
from_chars-pos (c ∷ cs) {n} h p = elim (Bool-cases (c == b'-')) [
  | inl e ↦ absurd (omega (arith, in_range-negative cs n (with_rest-some cs _ (rw e at h))))
  | inr e ↦ in_range-value (c ∷ cs) n (with_rest-some (c ∷ cs) _ (rw e at h))
]

parse_positive_int-bound : (s : Bytes) {n : ℕ} → parse_positive_int s ≡ some n → IsPositive n
unfolding parse_positive_int
parse_positive_int-bound s {n} h = elim (Option-cases (from_chars s)) [
  | inl e ↦ absurd (ground arith)
  | inr (x, e) ↦
      let (v, p) = positive-some x.0 x.1 (rw (e, parse_positive_int) at h) in
      (p, from_chars-pos s (e ∙ ap (λ y. some (y, x.1)) v) p)
]

set_option-IsUsable :
    (flag : Flag) (n : ℕ) {o : BenchmarkOptions}
    → IsPositive n
    → IsUsable o
    → IsUsable (set_option flag n o)
set_option-IsUsable concurrency_flag n h u = record {
  some_workers = h;
  some_requests = u.some_requests;
  some_time = u.some_time;
}
set_option-IsUsable requests_flag n h u = record {
  some_workers = u.some_workers;
  some_requests = h;
  some_time = u.some_time;
}
set_option-IsUsable timeout_flag n h u = record {
  some_workers = u.some_workers;
  some_requests = u.some_requests;
  some_time = h;
}

set_if_some-IsUsable :
    (flag : Flag) (s : Bytes) {o : BenchmarkOptions}
    → IsUsable o
    → IsUsable (set_if_some flag (parse_positive_int s) o)
set_if_some-IsUsable flag s u = elim (Option-cases (parse_positive_int s)) [
  | inl e ↦ rw e u
  | inr (n, e) ↦ rw e (set_option-IsUsable flag n (parse_positive_int-bound s e) u)
]

pub parse_options-IsUsable :
    (o : BenchmarkOptions) (args : List Bytes) → IsUsable o → IsUsable (parse_options o args)
unfolding parse_options
parse_options-IsUsable o [] u = u
parse_options-IsUsable o (arg ∷ []) u = u
parse_options-IsUsable o (arg ∷ next ∷ rest) u = elim (Option-cases (flag_of arg)) [
  | inl e ↦ rw (e, parse_options) (parse_options-IsUsable o (next ∷ rest) u)
  | inr (flag, e) ↦
      rw (e, parse_options)
        (parse_options-IsUsable (set_if_some flag (parse_positive_int next) o) rest
          (set_if_some-IsUsable flag next u))
]
