-- ===== src/Transport/Buckets.antt =====
-- src/client_transport.cc: the descriptors in the buckets of the idle pool.
use hxrpc.Common.{
  ℕ, ◌+◌, ◌≡◌, refl, List, [], ◌∷◌, ◌++◌, none, Bytes, ◌==◌, if◌then◌else◌, lookup, insert, erase,
  bytes_eq, arith, lookup-insert, lookup-erase, same, same_iff, Bool-cases, inl, inr,
}
use hxrpc.Transport.{bucket_of, all_idle}

-- How often a descriptor stands in a list.
abbrev pub count : ℕ → List ℕ → ℕ
count fd [] = 0
count fd (x ∷ xs) = (if x == fd then 1 else 0) + count fd xs

pub count-append : (fd : ℕ) (xs ys : List ℕ) → count fd (xs ++ ys) ≡ count fd xs + count fd ys
count-append fd [] ys = omega arith
count-append fd (x ∷ xs) ys = omega (arith, count-append fd xs ys)

abbrev pub Pool : Type 0
Pool = List (Bytes × List ℕ)

-- No key has two buckets.
abbrev pub HasOneBucket : Pool → Type 0
HasOneBucket [] = Unit {0}
HasOneBucket ((key, fds) ∷ pool) = (lookup key pool ≡ none) × HasOneBucket pool

pub HasOneBucket-insert :
    (key : Bytes) (fds : List ℕ) (pool : Pool)
    → HasOneBucket pool
    → HasOneBucket (insert key fds pool)
unfolding insert lookup
HasOneBucket-insert key fds [] u = (refl, tt)
HasOneBucket-insert key fds ((k, xs) ∷ pool) (a, u) = ground (
  arith,
  HasOneBucket-insert key fds pool u,
  lookup-insert key k fds pool,
  same_iff k key,
  same_iff key k,
)

erase_absent : (key : Bytes) (pool : Pool) → lookup key pool ≡ none → erase key pool ≡ pool
unfolding lookup erase
erase_absent key [] e = refl
erase_absent key ((k, xs) ∷ pool) e = ground (arith, erase_absent key pool)

pub HasOneBucket-erase :
    (key : Bytes) (pool : Pool) → HasOneBucket pool → HasOneBucket (erase key pool)
unfolding erase lookup
HasOneBucket-erase key [] u = tt
HasOneBucket-erase key ((k, xs) ∷ pool) (a, u) =
    ground (arith, HasOneBucket-erase key pool u, lookup-erase key k pool)

-- What is idle, besides the bucket of a key.
pub count-insert :
    (fd : ℕ) (key : Bytes) (fds : List ℕ) (pool : Pool)
    → count fd (all_idle (insert key fds pool)) + count fd (bucket_of (lookup key pool))
      ≡ count fd (all_idle pool) + count fd fds
unfolding insert lookup
count-insert fd key fds [] = omega (arith, count-append fd fds [])
count-insert fd key fds ((k, xs) ∷ pool) = elim (Bool-cases (same k key)) [
  | inl e ↦
      rw e (omega (arith, count-append fd fds (all_idle pool), count-append fd xs (all_idle pool)))
  | inr e ↦ rw e (
      omega (
        arith,
        count-insert fd key fds pool,
        count-append fd xs (all_idle (insert key fds pool)),
        count-append fd xs (all_idle pool),
      ))
]

pub count-erase :
    (fd : ℕ) (key : Bytes) (pool : Pool)
    → HasOneBucket pool
    → count fd (all_idle (erase key pool)) + count fd (bucket_of (lookup key pool))
      ≡ count fd (all_idle pool)
unfolding erase lookup
count-erase fd key [] u = refl
count-erase fd key ((k, xs) ∷ pool) (a, u) = elim (Bool-cases (same k key)) [
  | inl e ↦
      let k_is : k ≡ key = (same_iff k key).0 e in
      let gone : erase key pool ≡ pool = erase_absent key pool (rw (← k_is) a) in
      rw (e, gone) (omega (arith, count-append fd xs (all_idle pool)))
  | inr e ↦ rw e (
      omega (
        arith,
        count-erase fd key pool u,
        count-append fd xs (all_idle (erase key pool)),
        count-append fd xs (all_idle pool),
      ))
]
