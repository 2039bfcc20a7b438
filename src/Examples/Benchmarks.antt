-- ===== src/Examples/Benchmarks.antt =====
-- The benchmark: a login that is served, a run with two threads, and the figures of three latencies,
-- and a command line.
use hxrpc.Benchmark.Accounts.{every_request_answered}
use hxrpc.Benchmark.Counted.{login_setting, login_counted}
use hxrpc.Benchmark.Login.{IsUserMessages, user_server, answered_with}
use hxrpc.Benchmark.Metrics.{Floats, Metrics, build_metrics}
use hxrpc.Benchmark.Options.{BenchmarkOptions}
use hxrpc.Benchmark.Quantiles.{IsFloats, Measured, build_metrics-percentiles}
use hxrpc.Benchmark.Run.{
  Tally, Worker, Benchmark, Setting, call_options, next_request, unlaunched, launch, worker_round,
  count_result, exit_success, total_requests, Runs, begin, then_does, launches, requests,
}
use hxrpc.Benchmark.Users.{UserMessages, login, login_ok, user_service}
use hxrpc.Client.Laws.{Exchanged, request_of}
use hxrpc.Client.{Network, invoke}
use hxrpc.Codec.Frame.{encode_frame, split_frame}
use hxrpc.Codec.Wire.{be32, read_be32}
use hxrpc.Codec.{encode_request, encode_response, decode_request, decode_response}
use hxrpc.Common.{
  ℕ, ◌+◌, ◌*◌, ◌/◌, ◌≡◌, refl, true, false, Bool, [], ◌∷◌, ◌++◌, Bytes, codes, value, lookup,
  insert, bytes_eq, same, length, take, drop, ltb, ◌==◌, if◌then◌else◌, arith, inr, some,
}
use hxrpc.Controller.{set_request_metadata}
use hxrpc.Dispatcher.Laws.{answer}
use hxrpc.EndToEnd.{Connected}
use hxrpc.Examples.Calls.{bytes_of}
use hxrpc.Examples.Setup.{
  Message, proto, proto-IsProtobuf, messages, messages-IsMessageApi, endpoint, client,
}
use hxrpc.MessagePool.Laws.{empty_pool-IsValid}
use hxrpc.MessagePool.{acquire, release_handle}
use hxrpc.Registry.{register_service, find_method}
use hxrpc.Serializer.{serialize, deserialize}
use hxrpc.Server.Laws.{reply}
use hxrpc.Types.Decimal.{to_string}
use hxrpc.Types.{to_int32, is_ok, of_int32}

-- A request's contents are the length of the name, the name and the password; a response's are
-- the flag, the code and the text.
abbrev name_of : Bytes → Bytes
name_of [] = []
name_of (n ∷ rest) = take n rest

abbrev password_of : Bytes → Bytes
password_of [] = []
password_of (n ∷ rest) = drop n rest

abbrev is_set : Bytes → Bool
is_set [] = false
is_set (b ∷ rest) = b == 1

abbrev users : UserMessages Message
users = record {
  login_request = (codes "LoginRequest", []);
  login_response = (codes "LoginResponse", []);
  register_request = (codes "RegisterRequest", []);
  register_response = (codes "RegisterResponse", []);
  id = λ m. 1;
  name = λ m. name_of m.1;
  pwd = λ m. password_of m.1;
  set_outcome = λ m code text b. (m.0, (if b then 1 else 0) ∷ code ∷ text);
  success = λ m. is_set m.1;
}

flag-is_set : (b : Bool) → ((if b then 1 else 0) == 1) ≡ b
flag-is_set true = refl
flag-is_set false = refl

users-IsUserMessages : IsUserMessages messages users
users-IsUserMessages = record {
  success-set = λ m code text b. flag-is_set b;
  full_name-set = λ m code text b. refl;
  parse-serialize = λ prototype m b named e. cc;
}

abbrev user_net : Network (Unit {0})
user_net = record {
  resolve = λ s m t. (value (record { id = codes "one"; endpoint = endpoint }), t);
  round_trip = λ e frame options t. (reply (user_server proto messages users) frame, t);
}

abbrev login_message : Message
login_message = (codes "LoginRequest", 5 ∷ (codes "alice" ++ codes "123456"))

abbrev login_reply : Message
login_reply = (codes "LoginResponse", codes "old")

abbrev two_by_one : BenchmarkOptions
two_by_one = record { concurrency = 2; requests_per_worker = 1; timeout_ms = 1500 }

abbrev setting : Setting Message (Unit {0})
setting = login_setting proto messages users user_net login_message login_reply two_by_one

abbrev worker : Worker Message (Unit {0})
worker = record { worker_index = 3; client = client; left = 1 }

abbrev login_frame : Bytes
login_frame = bytes_of (
    encode_request proto (
      request_of proto messages user_net (codes "UserServiceRpc") (codes "Login") login_message.1
        (call_options setting 3) client))

abbrev login_response_frame : Bytes
login_response_frame = bytes_of (reply (user_server proto messages users) login_frame)

abbrev LoginExchange : Type 0
LoginExchange =
    Exchanged proto messages user_net (codes "UserServiceRpc") (codes "Login") login_message
      (call_options setting 3) client

unfoldable exchanged : LoginExchange
unfolding codes serialize encode_request encode_frame be32 reply answer decode_request split_frame
    read_be32 find_method register_service lookup insert same deserialize set_request_metadata
    encode_response to_int32 user_service login login_ok to_string
exchanged = record {
  instance_result = record { id = codes "one"; endpoint = endpoint };
  payload = login_message.1;
  frame = login_frame;
  response_frame = login_response_frame;
  after_resolve = tt;
  after_round_trip = tt;
  resolved = refl;
  serialized = refl;
  encoded = refl;
  answered = refl;
}

connected :
    Connected
      (user_server proto messages users)
      user_net
      proto-IsProtobuf
      messages-IsMessageApi
      exchanged
unfolding exchanged codes serialize encode_request encode_frame be32 reply answer decode_request
    split_frame read_be32 find_method register_service lookup insert same deserialize
    set_request_metadata encode_response to_int32 user_service login login_ok to_string
connected = record {
  id_fits = omega arith;
  frame_fits = omega arith;
  replied = refl;
  response_fits = omega arith;
}

abbrev tally : Tally ℕ
tally = record {
  success_count = 4;
  framework_failures = 1;
  business_failures = 2;
  successful_latencies_ms = 30 ∷ 10 ∷ 20 ∷ 10 ∷ [];
}

login_counted_example :
    (next_request setting worker 25 tally).1
    ≡ record tally { success_count = 5; successful_latencies_ms = 30 ∷ 10 ∷ 20 ∷ 10 ∷ 25 ∷ [] }
unfolding exchanged codes serialize encode_request encode_frame be32 reply answer decode_request
    split_frame read_be32 find_method register_service lookup insert same deserialize
    set_request_metadata encode_response to_int32 user_service login login_ok to_string
login_counted_example =
    login_counted proto messages users user_net proto-IsProtobuf messages-IsMessageApi
      users-IsUserMessages login_message login_reply two_by_one worker exchanged
      (answered_with messages users login_message).1 login_response_frame 25 tally
      (empty_pool-IsValid messages 4) connected refl refl refl refl refl refl

abbrev floats : Floats ℕ
floats = record {
  of_int = λ n. n;
  add = ◌+◌;
  mul = ◌*◌;
  div = ◌/◌;
  less = ltb;
  ceil = λ n. (n + 99) / 100;
  p95 = 95;
  p99 = 99;
}

floats-IsFloats : IsFloats floats
floats-IsFloats = record {
  asymmetric = λ a b h. ground arith;
  transitive = λ a b c h k. ground arith;
  p95_pos = λ n h. omega arith;
  p95_le = λ n. omega arith;
  p99_le = λ n. omega arith;
}

build_metrics-percentiles_example :
    (m : Metrics ℕ) × (build_metrics floats 3 (30 ∷ 10 ∷ 20 ∷ []) 3 ≡ some m)
    × Measured (30 ∷ 10 ∷ 20 ∷ []) m.p95_latency_ms
    × Measured (30 ∷ 10 ∷ 20 ∷ []) m.p99_latency_ms
    × (ltb m.p99_latency_ms m.p95_latency_ms ≡ false)
build_metrics-percentiles_example =
    build_metrics-percentiles floats floats-IsFloats 3 3 30 (10 ∷ 20 ∷ []) (omega arith)

-- Both threads are launched, and then the second sends its request before the first.
abbrev launched : Benchmark Message (Unit {0}) ℕ
launched = launch two_by_one client (launch two_by_one client unlaunched)

abbrev finished : Benchmark Message (Unit {0}) ℕ
finished = worker_round setting 0 40 (worker_round setting 1 30 launched)

finished-Runs : Runs setting finished
unfolding launch worker_round next_request
finished-Runs =
    then_does
      (then_does
        (then_does (then_does begin (launches client (refl, omega arith)))
          (launches client (refl, omega arith)))
        (requests 1 30 _ refl (omega arith)))
      (requests 0 40 _ refl (omega arith))

every_request_answered_example :
    (finished.tally.success_count + finished.tally.business_failures ≡ 2)
    × (length finished.tally.successful_latencies_ms ≡ finished.tally.success_count)
unfolding codes serialize encode_request encode_frame be32 reply answer decode_request split_frame
    read_be32 find_method register_service lookup insert same deserialize set_request_metadata
    encode_response to_int32 user_service login login_ok to_string launch worker_round next_request
    exit_success total_requests invoke decode_response is_ok acquire release_handle count_result
    of_int32
every_request_answered_example =
    every_request_answered setting finished-Runs (inr refl, refl) refl refl
