-- ===== src/Benchmark/Quantiles.antt =====
-- benchmark/client/client.cc: what the percentiles of a run are.
use hxrpc.Benchmark.Metrics.{
  Floats, Metrics, insert_sorted, sort, quantile_index, quantile_ms, sum, success_rate_of,
  with_quantiles, build_metrics,
}
use hxrpc.Common.{
  ℕ, zero, suc, ◌^◌, ◌≤◌, ◌<◌, ◌≡◌, refl, true, false, List, [], ◌∷◌, some, length, get_elem?,
  arith, Bool-cases, inl, inr, ◌∙◌, ◌⊎◌,
}

-- `<` on doubles none of which is a NaN, and the positions of the two quantiles among `n` values.
pub record IsFloats {D : Type 0} (f : Floats D) : Type 0 where
  pub asymmetric : (a b : D) → f.less a b ≡ true → f.less b a ≡ false
  pub transitive : (a b c : D) → f.less b a ≡ false → f.less c b ≡ false → f.less c a ≡ false
  pub p95_pos : (n : ℕ) → 0 < n → 0 < f.ceil (f.mul f.p95 (f.of_int n))
  pub p95_le : (n : ℕ) → f.ceil (f.mul f.p95 (f.of_int n)) ≤ f.ceil (f.mul f.p99 (f.of_int n))
  pub p99_le : (n : ℕ) → f.ceil (f.mul f.p99 (f.of_int n)) ≤ n

get_elem?-some :
    {D : Type 0} (xs : List D) (i : ℕ) → i < length xs → (a : D) × (get_elem? xs i ≡ some a)
get_elem?-some [] i h = absurd (omega arith)
get_elem?-some (x ∷ xs) zero h = (x, refl)
get_elem?-some (x ∷ xs) (suc i) h = get_elem?-some xs i (omega arith)

-- The value stands in the list.
abbrev pub Measured : {D : Type 0} → List D → D → Type 0
Measured xs a = (i : ℕ) × (get_elem? xs i ≡ some a)

Measured-split :
    {D : Type 0} (x : D) (xs : List D) (a : D)
    → Measured (x ∷ xs) a
    → (get_elem? (x ∷ xs) 0 ≡ some a) ⊎ Measured xs a
Measured-split x xs a (zero, h) = inl h
Measured-split x xs a (suc i, h) = inr (i, h)

module _ {D : Type 0} (f : Floats D) where
  -- No value is smaller.
  abbrev Below : D → List D → Type 0
  Below x [] = Unit {0}
  Below x (y ∷ ys) = (f.less y x ≡ false) × Below x ys

  abbrev IsSorted : List D → Type 0
  IsSorted [] = Unit {0}
  IsSorted (x ∷ xs) = Below x xs × IsSorted xs

  insert_sorted-Below :
      (a x : D) (ys : List D) → f.less x a ≡ false → Below a ys → Below a (insert_sorted f x ys)
  unfolding insert_sorted
  insert_sorted-Below a x [] h b = (h, b)
  insert_sorted-Below a x (y ∷ ys) h b = ground (arith, insert_sorted-Below a x ys)

  length-insert_sorted : (x : D) (ys : List D) → length (insert_sorted f x ys) ≡ suc (length ys)
  unfolding insert_sorted
  length-insert_sorted x [] = refl
  length-insert_sorted x (y ∷ ys) = ground (arith, length-insert_sorted x ys)

  length-sort : (xs : List D) → length (sort f xs) ≡ length xs
  unfolding sort
  length-sort [] = refl
  length-sort (x ∷ xs) = omega (arith, length-insert_sorted x (sort f xs), length-sort xs)

  insert_sorted-Measured :
      (x : D) (ys : List D) (a : D) → Measured (insert_sorted f x ys) a → Measured (x ∷ ys) a
  unfolding insert_sorted
  insert_sorted-Measured x [] a m = m
  insert_sorted-Measured x (y ∷ ys) a m = elim (Bool-cases (f.less y x)) [
    | inl e ↦ elim (Measured-split y (insert_sorted f x ys) a (rw (e, insert_sorted) at m)) [
      | inl h ↦ (1, h)
      | inr h ↦ elim (Measured-split x ys a (insert_sorted-Measured x ys a h)) [
        | inl k ↦ (0, k)
        | inr k ↦ (suc (suc k.0), k.1)
      ]
    ]
    | inr e ↦ rw (e, insert_sorted) at m
  ]

  sort-Measured : (xs : List D) (a : D) → Measured (sort f xs) a → Measured xs a
  unfolding sort
  sort-Measured [] a m = m
  sort-Measured (x ∷ xs) a m =
      elim (Measured-split x (sort f xs) a (insert_sorted-Measured x (sort f xs) a m)) [
        | inl h ↦ (0, h)
        | inr h ↦ let (j, k) = sort-Measured xs a h in (suc j, k)
      ]

  module _ (laws : IsFloats f) where
    Below-trans : (x y : D) (ys : List D) → f.less y x ≡ false → Below y ys → Below x ys
    Below-trans x y [] h b = b
    Below-trans x y (z ∷ zs) h b = (laws.transitive x y z h b.0, Below-trans x y zs h b.1)

    insert_sorted-IsSorted : (x : D) (ys : List D) → IsSorted ys → IsSorted (insert_sorted f x ys)
    unfolding insert_sorted
    insert_sorted-IsSorted x [] s = (tt, tt)
    insert_sorted-IsSorted x (y ∷ ys) s = elim (Bool-cases (f.less y x)) [
      | inl e ↦
          rw e (
            insert_sorted-Below y x ys (laws.asymmetric y x e) s.0,
            insert_sorted-IsSorted x ys s.1,
          )
      | inr e ↦ rw e ((e, Below-trans x y ys e s.0), s)
    ]

    sort-IsSorted : (xs : List D) → IsSorted (sort f xs)
    unfolding sort
    sort-IsSorted [] = tt
    sort-IsSorted (x ∷ xs) = insert_sorted-IsSorted x (sort f xs) (sort-IsSorted xs)

    less_refl : (a : D) → f.less a a ≡ false
    less_refl a = elim (Bool-cases (f.less a a)) [ inl e ↦ laws.asymmetric a a e | inr e ↦ e ]

    Below-get_elem? :
        (x : D) (ys : List D) (j : ℕ) (b : D)
        → Below x ys
        → get_elem? ys j ≡ some b
        → f.less b x ≡ false
    Below-get_elem? x [] j b h e = cc
    Below-get_elem? x (y ∷ ys) zero b h e = ground arith
    Below-get_elem? x (y ∷ ys) (suc j) b h e = Below-get_elem? x ys j b h.1 e

    get_elem?-IsSorted :
        (xs : List D) (i j : ℕ) (a b : D)
        → IsSorted xs
        → i ≤ j
        → get_elem? xs i ≡ some a
        → get_elem? xs j ≡ some b
        → f.less b a ≡ false
    get_elem?-IsSorted [] i j a b s h e k = cc
    get_elem?-IsSorted (x ∷ xs) zero zero a b s h e k = ground (arith, less_refl a)
    get_elem?-IsSorted (x ∷ xs) zero (suc j) a b s h e k = ground (arith, Below-get_elem? x xs j b)
    get_elem?-IsSorted (x ∷ xs) (suc i) zero a b s h e k = absurd (omega arith)
    get_elem?-IsSorted (x ∷ xs) (suc i) (suc j) a b s h e k =
        get_elem?-IsSorted xs i j a b s.1 (omega arith) e k

    -- The positions of the two quantiles, in range and in order.
    quantile_index-lt : (n : ℕ) (q : D) → 0 < n → quantile_index f q n < n
    unfolding quantile_index
    quantile_index-lt n q h = omega arith

    quantile_index-le :
        (n : ℕ) → 0 < n → n < 2 ^ 64 → quantile_index f f.p95 n ≤ quantile_index f f.p99 n
    unfolding quantile_index
    quantile_index-le n h k = omega (arith, laws.p95_pos n h, laws.p95_le n, laws.p99_le n)

    quantile_ms-get_elem? :
        (xs : List D) (q : D)
        → 0 < length xs
        → quantile_ms f xs q ≡ get_elem? xs (quantile_index f q (length xs))
    unfolding quantile_ms
    quantile_ms-get_elem? [] q h = absurd (omega arith)
    quantile_ms-get_elem? (x ∷ xs) q h = refl

    build_metrics-value :
        (total success : ℕ) (x : D) (xs : List D) (a b : D)
        → quantile_ms f (sort f (x ∷ xs)) f.p95 ≡ some a
        → quantile_ms f (sort f (x ∷ xs)) f.p99 ≡ some b
        → (m : Metrics D) × (build_metrics f total (x ∷ xs) success ≡ some m)
          × (m.p95_latency_ms ≡ a)
          × (m.p99_latency_ms ≡ b)
    unfolding build_metrics
    build_metrics-value total success x xs a b e k = (
      record {
        success_rate = success_rate_of f total success;
        avg_latency_ms = f.div (sum f (f.of_int 0) (x ∷ xs)) (f.of_int (length (x ∷ xs)));
        p95_latency_ms = a;
        p99_latency_ms = b;
      },
      rw (e, with_quantiles, k, with_quantiles),
      refl,
      refl,
    )

    -- If no double is a NaN, the positions that the two quantiles are rounded up to lie between 1
    -- and the number of latencies, in order, and there are fewer than 2 ^ 64 latencies,
    -- BuildMetrics on at least one latency reads within its vector, and both percentiles are
    -- measured latencies, the 99th not smaller than the 95th.
    pub build_metrics-percentiles :
        (total success : ℕ) (x : D) (xs : List D)
        → length (x ∷ xs) < 2 ^ 64
        → (m : Metrics D) × (build_metrics f total (x ∷ xs) success ≡ some m)
          × Measured (x ∷ xs) m.p95_latency_ms
          × Measured (x ∷ xs) m.p99_latency_ms
          × (f.less m.p99_latency_ms m.p95_latency_ms ≡ false)
    build_metrics-percentiles total success x xs fits =
        let sorted = sort f (x ∷ xs) in
        let n : length sorted ≡ suc (length xs) = length-sort (x ∷ xs) in
        let some_values : 0 < length sorted = omega (arith, n) in
        let i = quantile_index f f.p95 (length sorted) in
        let j = quantile_index f f.p99 (length sorted) in
        let (a, at_i) =
          get_elem?-some sorted i (quantile_index-lt (length sorted) f.p95 some_values) in
        let (b, at_j) =
          get_elem?-some sorted j (quantile_index-lt (length sorted) f.p99 some_values) in
        let (m, built, ma, mb) =
          build_metrics-value total success x xs a b
            (quantile_ms-get_elem? sorted f.p95 some_values ∙ at_i)
            (quantile_ms-get_elem? sorted f.p99 some_values ∙ at_j) in
        let ordered : f.less b a ≡ false =
          get_elem?-IsSorted sorted i j a b (sort-IsSorted (x ∷ xs))
            (quantile_index-le (length sorted) some_values (omega (arith, n, fits))) at_i at_j in
        (
          m,
          built,
          rw ma (sort-Measured (x ∷ xs) a (i, at_i)),
          rw mb (sort-Measured (x ∷ xs) b (j, at_j)),
          rw (ma, mb) ordered,
        )
