-- ===== src/Benchmark/Metrics.antt =====
-- benchmark/client/client.cc: the figures of a run. A double is a value of a type `D` with the
-- operations that the code uses.
use hxrpc.Common.{
  ℕ, ◌+◌, ◌-◌, ◌%◌, ◌^◌, Bool, List, [], ◌∷◌, Option, none, some, length, get_elem?, min, ltb,
  if◌then◌else◌,
}

-- double: conversion from an int, the arithmetic, `<`, `std::ceil` cast to std::size_t, and the
-- two literals 0.95 and 0.99.
pub record Floats (D : Type 0) : Type 0 where
  pub of_int : ℕ → D
  pub add : D → D → D
  pub mul : D → D → D
  pub div : D → D → D
  pub less : D → D → Bool
  pub ceil : D → ℕ
  pub p95 : D
  pub p99 : D

pub record Metrics (D : Type 0) : Type 0 where
  pub success_rate : D
  pub avg_latency_ms : D
  pub p95_latency_ms : D
  pub p99_latency_ms : D

module _ {D : Type 0} (f : Floats D) where
  -- `std::sort`, as insertion from the front.
  unfoldable pub insert_sorted : D → List D → List D
  insert_sorted x [] = x ∷ []
  insert_sorted x (y ∷ ys) =
      let rest = insert_sorted x ys in if f.less y x then y ∷ rest else x ∷ y ∷ ys

  unfoldable pub sort : List D → List D
  unfolding insert_sorted
  sort [] = []
  sort (x ∷ xs) = insert_sorted x (sort xs)

  -- std::size_t wraps below 0.
  unfoldable pub quantile_index : D → ℕ → ℕ
  quantile_index quantile n =
      min ((f.ceil (f.mul quantile (f.of_int n)) + 2 ^ 64 - 1) % 2 ^ 64) (n - 1)

  -- QuantileMs; `none` is a read out of bounds.
  unfoldable pub quantile_ms : List D → D → Option D
  unfolding quantile_index
  quantile_ms [] quantile = some (f.of_int 0)
  quantile_ms (x ∷ xs) quantile = get_elem? (x ∷ xs) (quantile_index quantile (length (x ∷ xs)))

  -- `std::accumulate`
  unfoldable pub sum : D → List D → D
  sum total [] = total
  sum total (x ∷ xs) = sum (f.add total x) xs

  unfoldable pub success_rate_of : ℕ → ℕ → D
  success_rate_of total success =
      if ltb 0 total
      then f.div (f.mul (f.of_int 100) (f.of_int success)) (f.of_int total)
      else f.of_int 0

  unfoldable pub with_quantiles : D → D → Option D → Option D → Option (Metrics D)
  with_quantiles rate average (some a) (some b) = some (record {
    success_rate = rate;
    avg_latency_ms = average;
    p95_latency_ms = a;
    p99_latency_ms = b;
  })
  with_quantiles rate average _ _ = none

  -- BuildMetrics
  unfoldable pub build_metrics : ℕ → List D → ℕ → Option (Metrics D)
  unfolding success_rate_of with_quantiles quantile_ms sum
  build_metrics total [] success = some (record {
    success_rate = success_rate_of total success;
    avg_latency_ms = f.of_int 0;
    p95_latency_ms = f.of_int 0;
    p99_latency_ms = f.of_int 0;
  })
  build_metrics total (x ∷ xs) success =
      let sorted = sort (x ∷ xs) in
      with_quantiles (success_rate_of total success)
        (f.div (sum (f.of_int 0) (x ∷ xs)) (f.of_int (length (x ∷ xs)))) (quantile_ms sorted f.p95)
        (quantile_ms sorted f.p99)
