-- ===== src/Benchmark/Run.antt =====
-- benchmark/client/client.cc: the threads of the benchmark client and what they count. Each
-- worker thread has a client of its own and counts under one mutex; how the threads interleave is
-- open. The time that a call took is an argument, a double of a type that is a parameter.
use hxrpc.Benchmark.Options.{BenchmarkOptions}
use hxrpc.Client.{Client, Network, invoke}
use hxrpc.Codec.{Protobuf}
use hxrpc.Common.{
  ℕ, ◌+◌, ◌-◌, ◌*◌, ◌^◌, ◌<◌, ◌≡◌, ◌≢◌, ◌⊎◌, Bool, false, List, [], ◌∷◌, ◌++◌, Option, none, some,
  Bytes, codes, Expected, value, unexpected, length, get_elem?, set, ltb, ◌==◌, if◌then◌else◌,
}
use hxrpc.Serializer.{MessageApi}
use hxrpc.Types.Decimal.{to_string}
use hxrpc.Types.{CallOptions, RpcError}

-- What the threads share under `metrics_mutex`.
pub record Tally (D : Type 0) : Type 0 where
  pub success_count : ℕ
  pub framework_failures : ℕ
  pub business_failures : ℕ
  pub successful_latencies_ms : List D

abbrev pub empty_tally : {D : Type 0} → Tally D
empty_tally = record {
  success_count = 0;
  framework_failures = 0;
  business_failures = 0;
  successful_latencies_ms = [];
}

-- The generated code's part: the request with its fields set, a new response, and
-- `response.success()`.
pub record LoginApi (M : Type 0) : Type 0 where
  pub login_request : M
  pub login_response : M
  pub success : M → Bool

-- What the lock guards, for one result.
unfoldable pub count_result :
    {M D : Type 0} → LoginApi M → Expected M RpcError → D → Tally D → Tally D
count_result api (unexpected e) elapsed t = record t {
  framework_failures = t.framework_failures + 1;
}
count_result api (value response) elapsed t =
    if api.success response
    then record t {
      success_count = t.success_count + 1;
      successful_latencies_ms = t.successful_latencies_ms ++ (elapsed ∷ []);
    }
    else record t { business_failures = t.business_failures + 1 }

-- A thread: its index, its client, and the rounds of its loop that are left.
pub record Worker (M T : Type 0) : Type 0 where
  pub worker_index : ℕ
  pub client : Client M T
  pub left : ℕ

pub record Benchmark (M T D : Type 0) : Type 0 where
  pub workers : List (Worker M T)
  pub tally : Tally D
  pub launch_error : Option Bytes

-- The product of two ints; `none` where it overflows, which C++ leaves undefined.
unfoldable pub total_requests : BenchmarkOptions → Option ℕ
total_requests o =
    let n = o.concurrency * o.requests_per_worker in if ltb n (2 ^ 31) then some n else none

-- What all threads use: the libraries, the network, and the options of the run.
pub record Setting (M T : Type 0) : Type 0 where
  pub proto : Protobuf
  pub messages : MessageApi M
  pub net : Network T
  pub api : LoginApi M
  pub options : BenchmarkOptions

module _ {M T : Type 0} where
  abbrev pub call_options : Setting M T → ℕ → CallOptions
  call_options s worker_index = record {
    timeout_ms = s.options.timeout_ms;
    metadata = codes "benchmark_worker=" ++ to_string worker_index;
  }

  -- `client.Invoke(login_method, request, response, options)`
  invoke_login : Setting M T → Worker M T → Expected M RpcError × Client M T
  invoke_login s w =
      invoke s.proto s.messages s.net (codes "UserServiceRpc") (codes "Login") s.api.login_request
        s.api.login_response (call_options s w.worker_index) w.client

  abbrev pub requests_left : List (Worker M T) → ℕ
  requests_left [] = 0
  requests_left (w ∷ ws) = w.left + requests_left ws

module _ {M T D : Type 0} where
  abbrev pub unlaunched : Benchmark M T D
  unlaunched = record { workers = []; tally = empty_tally; launch_error = none }

  -- `workers.emplace_back`, with the client that the thread constructs.
  unfoldable pub launch : BenchmarkOptions → Client M T → Benchmark M T D → Benchmark M T D
  launch o client b = record b {
    workers =
        b.workers
        ++ (record {
          worker_index = length b.workers;
          client = client;
          left = o.requests_per_worker;
        }
            ∷ []);
  }

  -- The `catch` of `std::system_error`.
  unfoldable pub launch_failed : Bytes → Benchmark M T D → Benchmark M T D
  launch_failed what b = record b { launch_error = some what }

  abbrev pub Launching : BenchmarkOptions → Benchmark M T D → Type 0
  Launching o b = (b.launch_error ≡ none) × (length b.workers < o.concurrency)

  -- The exit code of the program is that of success.
  unfoldable pub exit_success : Benchmark M T D → Bool
  exit_success b = elim b.launch_error [
    | none ↦ b.tally.framework_failures == 0
    | some what ↦ false
  ]

  module _ (s : Setting M T) where
    -- One round of a worker's loop.
    unfoldable pub next_request : Worker M T → D → Tally D → Worker M T × Tally D
    unfolding invoke_login
    next_request w elapsed t =
        let (result, client') = invoke_login s w in
        (record w { client = client'; left = w.left - 1 }, count_result s.api result elapsed t)

    -- The round of the worker with an index.
    unfoldable pub worker_round : ℕ → D → Benchmark M T D → Benchmark M T D
    worker_round i elapsed b = elim (get_elem? b.workers i) [
      | none ↦ b
      | some w ↦
          let (w', tally') = next_request w elapsed b.tally in
          record b { workers = set b.workers i w'; tally = tally' }
    ]

    -- What the program may do next.
    pub data Step : Benchmark M T D → Benchmark M T D → Type 0 where
      launches :
          {b : Benchmark M T D} (client : Client M T)
          → Launching s.options b
          → Step b (launch s.options client b)
      fails :
          {b : Benchmark M T D} (what : Bytes)
          → Launching s.options b
          → Step b (launch_failed what b)
      requests :
          {b : Benchmark M T D} (i : ℕ) (elapsed : D) (w : Worker M T)
          → get_elem? b.workers i ≡ some w
          → 0 < w.left
          → Step b (worker_round i elapsed b)

    pub data Runs : Benchmark M T D → Type 0 where
      begin : Runs unlaunched
      then_does : {b b' : Benchmark M T D} → Runs b → Step b b' → Runs b'

  -- No more threads are launched, and every thread has been joined.
  abbrev pub Joined : BenchmarkOptions → Benchmark M T D → Type 0
  Joined o b =
      ((b.launch_error ≢ none) ⊎ (length b.workers ≡ o.concurrency)) × (requests_left b.workers ≡ 0)
