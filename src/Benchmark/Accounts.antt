-- ===== src/Benchmark/Accounts.antt =====
-- benchmark/client/client.cc: the counts of a run, in every interleaving of its threads.
use native.Mathlib.Nat.{zero-mul, suc-mul}
use hxrpc.Benchmark.Options.{BenchmarkOptions}
use hxrpc.Benchmark.Run.{
  Tally, LoginApi, Worker, Benchmark, Setting, count_result, next_request, worker_round, launch,
  launch_failed, unlaunched, total_requests, exit_success, requests_left, Launching, Joined, Step,
  launches, fails, requests, Runs, begin, then_does,
}
use hxrpc.Client.{Client}
use hxrpc.Common.{
  ℕ, zero, suc, ◌+◌, ◌-◌, ◌*◌, ◌≤◌, ◌<◌, ◌≡◌, inl, inr, refl, true, List, [], ◌∷◌, ◌++◌, none, some,
  Expected, value, unexpected, length, length-append, get_elem?, set, length-set, arith,
}
use hxrpc.Types.{RpcError}

-- The requests that have been counted.
abbrev pub counted : {D : Type 0} → Tally D → ℕ
counted t = t.success_count + t.framework_failures + t.business_failures

count_result-counted :
    {M D : Type 0} (api : LoginApi M) (result : Expected M RpcError) (elapsed : D) (t : Tally D)
    → counted (count_result api result elapsed t) ≡ counted t + 1
unfolding count_result
count_result-counted api (unexpected e) elapsed t = omega arith
count_result-counted api (value response) elapsed t = ground arith

abbrev Sampled : {D : Type 0} → Tally D → Type 0
Sampled t = length t.successful_latencies_ms ≡ t.success_count

count_result-Sampled :
    {M D : Type 0} (api : LoginApi M) (result : Expected M RpcError) (elapsed : D) (t : Tally D)
    → Sampled t
    → Sampled (count_result api result elapsed t)
unfolding count_result
count_result-Sampled api (unexpected e) elapsed t h = h
count_result-Sampled api (value response) elapsed t h =
    ground (arith, length-append t.successful_latencies_ms (elapsed ∷ []))

module _ {M T : Type 0} where
  requests_left-append :
      (ws : List (Worker M T)) (w : Worker M T)
      → requests_left (ws ++ (w ∷ [])) ≡ requests_left ws + w.left
  requests_left-append [] w = omega arith
  requests_left-append (x ∷ ws) w = omega (arith, requests_left-append ws w)

  requests_left-set :
      (ws : List (Worker M T)) (i : ℕ) (w w' : Worker M T)
      → get_elem? ws i ≡ some w
      → requests_left (set ws i w') + w.left ≡ requests_left ws + w'.left
  requests_left-set [] i w w' h = cc
  requests_left-set (x ∷ ws) zero w w' h = ground arith
  requests_left-set (x ∷ ws) (suc i) w w' h = omega (arith, requests_left-set ws i w w' h)

total_requests-some :
    (o : BenchmarkOptions) {n : ℕ}
    → total_requests o ≡ some n
    → o.concurrency * o.requests_per_worker ≡ n
unfolding total_requests
total_requests-some o h = ground arith

module _ {M T D : Type 0} where
  -- What holds while the threads run.
  pub record IsAccounted (o : BenchmarkOptions) (b : Benchmark M T D) : Type 0 where
    pub accounts :
        counted b.tally + requests_left b.workers ≡ length b.workers * o.requests_per_worker
    pub sampled : Sampled b.tally
    pub at_most : length b.workers ≤ o.concurrency

  unlaunched-IsAccounted : (o : BenchmarkOptions) → IsAccounted o unlaunched
  unlaunched-IsAccounted o = record {
    accounts = omega (arith, zero-mul o.requests_per_worker);
    sampled = refl;
    at_most = omega arith;
  }

  launch-IsAccounted :
      (o : BenchmarkOptions) (client : Client M T) (b : Benchmark M T D)
      → Launching o b
      → IsAccounted o b
      → IsAccounted o (launch o client b)
  unfolding launch
  launch-IsAccounted o client b h a =
      let w : Worker M T = record {
        worker_index = length b.workers;
        client = client;
        left = o.requests_per_worker;
      } in
      let n : length (b.workers ++ (w ∷ [])) ≡ suc (length b.workers) =
        omega (arith, length-append b.workers (w ∷ [])) in
      record {
        accounts = rw n (
            omega (
              arith,
              a.accounts,
              requests_left-append b.workers w,
              suc-mul (length b.workers) o.requests_per_worker,
            ));
        sampled = a.sampled;
        at_most = rw n h.1;
      }

  module _ (s : Setting M T) where
    next_request-left :
        (w : Worker M T) (elapsed : D) (t : Tally D)
        → (next_request s w elapsed t).0.left ≡ w.left - 1
    unfolding next_request
    next_request-left w elapsed t = refl

    next_request-counted :
        (w : Worker M T) (elapsed : D) (t : Tally D)
        → counted (next_request s w elapsed t).1 ≡ counted t + 1
    unfolding next_request
    next_request-counted w elapsed t = count_result-counted s.api _ elapsed t

    next_request-Sampled :
        (w : Worker M T) (elapsed : D) (t : Tally D)
        → Sampled t
        → Sampled (next_request s w elapsed t).1
    unfolding next_request
    next_request-Sampled w elapsed t h = count_result-Sampled s.api _ elapsed t h

    worker_round-IsAccounted :
        (i : ℕ) (elapsed : D) (w : Worker M T) (b : Benchmark M T D)
        → get_elem? b.workers i ≡ some w
        → 0 < w.left
        → IsAccounted s.options b
        → IsAccounted s.options (worker_round s i elapsed b)
    unfolding worker_round
    worker_round-IsAccounted i elapsed w b e h a =
        let w' = (next_request s w elapsed b.tally).0 in
        let n = length-set b.workers i w' in
        rw (e, worker_round)
          (record {
            accounts = rw n (
                omega (
                  arith,
                  a.accounts,
                  next_request-left w elapsed b.tally,
                  next_request-counted w elapsed b.tally,
                  requests_left-set b.workers i w w' e,
                ));
            sampled = next_request-Sampled w elapsed b.tally a.sampled;
            at_most = rw n a.at_most;
          })

    Step-IsAccounted :
        {b b' : Benchmark M T D} → Step s b b' → IsAccounted s.options b → IsAccounted s.options b'
    unfolding launch_failed
    Step-IsAccounted {b} (launches client h) a = launch-IsAccounted s.options client b h a
    Step-IsAccounted (fails what h) a = record {
      accounts = a.accounts;
      sampled = a.sampled;
      at_most = a.at_most;
    }
    Step-IsAccounted {b} (requests i elapsed w e h) a = worker_round-IsAccounted i elapsed w b e h a

    pub Runs-IsAccounted : {b : Benchmark M T D} → Runs s b → IsAccounted s.options b
    Runs-IsAccounted begin = unlaunched-IsAccounted s.options
    Runs-IsAccounted (then_does runs step) = Step-IsAccounted step (Runs-IsAccounted runs)

    exit_success-parts :
        (b : Benchmark M T D)
        → exit_success b ≡ true
        → (b.launch_error ≡ none) × (b.tally.framework_failures ≡ 0)
    unfolding exit_success
    exit_success-parts b h = ground arith

    all_launched :
        (b : Benchmark M T D)
        → Joined s.options b
        → b.launch_error ≡ none
        → length b.workers ≡ s.options.concurrency
    all_launched b (inl h, left) e = absurd (h e)
    all_launched b (inr h, left) e = h

    -- In every interleaving of the worker threads, when all of them have been joined and the exit
    -- code is that of success, and if the number of requests fits an int, the framework has
    -- answered exactly that many requests, with success or with a failure of the business, and
    -- there is one latency for each success.
    pub every_request_answered :
        {b : Benchmark M T D} {n : ℕ}
        → Runs s b
        → Joined s.options b
        → exit_success b ≡ true
        → total_requests s.options ≡ some n
        → (b.tally.success_count + b.tally.business_failures ≡ n)
          × (length b.tally.successful_latencies_ms ≡ b.tally.success_count)
    every_request_answered {b} runs joined ok total =
        let a = Runs-IsAccounted runs in
        let (launched, none_failed) = exit_success-parts b ok in
        let n = all_launched b joined launched in
        let accounts = rw n at a.accounts in
        (
          omega (arith, accounts, joined.1, none_failed, total_requests-some s.options total),
          a.sampled,
        )
